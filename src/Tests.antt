-- ===== src/Tests.antt =====
-- The theorems at concrete inputs.
pub mod Disk
pub mod Cpu
pub mod Kernel
pub mod Office
pub mod Items
pub mod Mail
pub mod Clock
pub mod Files
pub mod Drive
pub mod Calls
pub mod Programs
pub mod Devices
pub mod Processor
