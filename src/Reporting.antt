-- ===== src/Reporting.antt =====
-- The report that a command leaves, and the private text that is published with it:
-- tools/automation/reporting.py.
pub mod Deferred
pub mod Report
