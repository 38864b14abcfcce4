-- ===== src/Devices.antt =====
-- machine/console.cc and timer.cc: the simulated devices that only ask for interrupts.
pub mod Console
pub mod Timer
