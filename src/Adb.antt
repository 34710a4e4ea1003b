-- ===== src/Adb.antt =====
-- What tools/automation/adb.py finds out of a device: which one to use, whether its screen is ready,
-- and which process is its system_server.
pub mod Devices
pub mod Ui
pub mod Process
