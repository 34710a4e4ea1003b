-- ===== src/RebootIntent.antt =====
-- tools/automation/reboot_intent.py: the record on disk that lets a reboot-bearing device operation
-- be resumed after the reboot, one at a time.
pub mod Document
pub mod Disk
pub mod Store
pub mod Lock
