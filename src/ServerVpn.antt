-- ===== src/ServerVpn.antt =====
-- tools/automation/server_vpn_oracle.py: the comparison of four probe runs, on the stock system, with
-- the module active for a target and for a canary, and after the module was disabled.
pub mod Records
pub mod Identity
pub mod Clock
pub mod Projection
pub mod Phase
pub mod Differential
