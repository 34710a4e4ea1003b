-- ===== src/LiveControl.antt =====
-- tools/automation/location_live_control.py: the wrapper of the on-device live-control helper.
pub mod Properties
pub mod Status
pub mod Generations
pub mod Update
pub mod Input
pub mod Session
