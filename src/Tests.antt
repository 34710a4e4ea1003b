-- ===== src/Tests.antt =====
-- The theorems of the development, applied at concrete inputs.
mod SetLocation
mod Recover
mod BootTransition
mod BootConfig
mod ServerVpn
mod Json
mod RebootIntent
mod LiveControl
mod SafeRead
mod Adb
mod Reporting
mod LiveSession
mod OracleInput
mod FinalInputs
