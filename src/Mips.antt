-- ===== src/Mips.antt =====
-- machine/mipssim.h and mipssim.cc: the simulated MIPS processor.
pub mod Mult
pub mod Word
pub mod Decode
pub mod Execute
pub mod Run
