-- ===== src/Reporting/Deferred.antt =====
-- `DeferredPrivateText` of tools/automation/reporting.py, over the files of one directory. A staging
-- that the device interrupts removes its temporary file, as if it had not begun, and is left out.
pub mod Publication
use zygveil.Base.{String, Option, none, some, Dict, lookup, insert, Result, ok, err}
use zygveil.SafeRead.{private_mode, regular}
use zygveil.RebootIntent.Disk.{Node, Disk, unlink, replace}
use zygveil.RebootIntent.Store.{Fresh, new_file}

-- The directory, and the pair of names that is pending.
pub record Deferred : Type 0 where
  pub disk : Disk
  pub pending : Option (String × String)

abbrev pub staged_file : Fresh → String → Deferred → Node
staged_file t content s = record (new_file t s.disk.getuid) { content = content }

abbrev pub stage_unless :
    Option (String × String) → Fresh → String → String → Deferred → Result Deferred
stage_unless (some _) t destination content s = err "a private evidence artifact is already pending"
stage_unless none t destination content s = ok (record {
  disk = record s.disk { files = insert t.name (staged_file t content s) s.disk.files };
  pending = some (t.name, destination);
})

unfoldable pub stage : Fresh → String → String → Deferred → Result Deferred
unfolding insert
stage t destination content s = stage_unless s.pending t destination content s

abbrev pub commit_pending : Option (String × String) → Deferred → Deferred
commit_pending none s = s
commit_pending (some (temporary, destination)) s = record {
  disk = replace temporary destination s.disk;
  pending = none;
}

unfoldable pub commit : Deferred → Deferred
unfolding replace
commit s = commit_pending s.pending s

abbrev pub discard_pending : Option (String × String) → Deferred → Deferred
discard_pending none s = s
discard_pending (some (temporary, destination)) s = record {
  disk = unlink temporary s.disk;
  pending = none;
}

unfoldable pub discard : Deferred → Deferred
unfolding unlink
discard s = discard_pending s.pending s
