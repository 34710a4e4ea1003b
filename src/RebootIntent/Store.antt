-- ===== src/RebootIntent/Store.antt =====
-- `write_intent`, `load_intent`, `begin_or_resume` and `clear_intent` of
-- tools/automation/reboot_intent.py. The lines that go into the report are left out.
pub mod Effects
pub mod Crash
pub mod Written
pub mod RoundTrip
pub mod Resume
pub mod Pending
pub mod Judged
pub mod Source
use zygveil.Base.{
  ℕ, String, Bool, true, false, not, ◌&&◌, ◌||◌, ◌==◌, Option, none, some, List, [], ◌∷◌, ◌++◌,
  Dict, lookup, insert, ltb, all_chars, join, Result, ok, err, ◌>>=◌, ◌>>◌, reject, if◌then◌else◌,
}
use zygveil.SafeRead.{regular, is_regular, Reading, Rule, private_mode, read_checked}
use zygveil.Json.{Json, Fields, obj, entries, fields, as_str, is_str}
use zygveil.Json.Print.{dumps}
use zygveil.Json.Load.{loads}
use zygveil.RebootIntent.Document.{Request, Identity, validate_intent, new_intent}
use zygveil.RebootIntent.Disk.{
  Node, Disk, create_directory, inspect_directory, reject_conflicting_intents, unlink, replace,
  update_file,
}

-- `json.dumps(values, sort_keys=True, separators=(",", ":")) + "\n"`
unfoldable pub canonical : Dict Json → String
unfolding dumps fields
canonical values = join (dumps (obj (fields values))) "\n"

-- The name that `mkstemp` picks and the numbers of the new file, which the system chooses.
pub record Fresh : Type 0 where
  pub name : String
  pub dev : ℕ
  pub ino : ℕ
  pub mtime_ns : ℕ

abbrev pub new_file : Fresh → ℕ → Node
new_file t getuid = record {
  dev = t.dev;
  ino = t.ino;
  kind = regular;
  perm = private_mode;
  uid = getuid;
  nlink = 1;
  mtime_ns = t.mtime_ns;
  content = "";
}

-- The calls that `write_intent` makes once the directory is there, each with its effect: `mkstemp`,
-- `fchmod`, a write for each portion of the text, `fsync`, `replace`, `chmod`, the `fsync` of the
-- directory and the `unlink` of `finally`.
pub data Call : Type 0 where
  make_temporary secure_temporary sync_temporary publish secure sync_folder remove_temporary : Call
  write : String → Call

unfoldable pub effect : Fresh → String → Call → Disk → Disk
unfolding replace update_file unlink insert join
effect t path make_temporary d = record d { files = insert t.name (new_file t d.getuid) d.files }
effect t path secure_temporary d = update_file t.name (λ n. record n { perm = private_mode }) d
effect t path (write s) d = update_file t.name (λ n. record n { content = join n.content s }) d
effect t path sync_temporary d = d
effect t path publish d = replace t.name path d
effect t path secure d = update_file path (λ n. record n { perm = private_mode }) d
effect t path sync_folder d = d
effect t path remove_temporary d = unlink t.name d

abbrev pub writes : List String → List Call
writes [] = []
writes (s ∷ rest) = write s ∷ writes rest

abbrev pub write_calls : List String → List Call
write_calls portions =
    make_temporary
    ∷ secure_temporary
    ∷ (writes portions ++ (sync_temporary ∷ publish ∷ secure ∷ sync_folder ∷ remove_temporary ∷ []))

unfoldable pub run : Fresh → String → List Call → Disk → Disk
unfolding effect
run t path [] d = d
run t path (c ∷ cs) d = run t path cs (effect t path c d)

-- The text goes out in one portion or in several: only the whole is the program's choice.
unfoldable pub write_intent : Fresh → String → List String → Disk → Result Disk
unfolding run create_directory
write_intent t path portions d =
    create_directory d >>= λ ready. ok (run t path (write_calls portions) ready)

abbrev pub read_rule : Rule
read_rule = record {
  limit = 4096;
  identity_error = "pending reboot intent identity is invalid";
  changed_error = "pending reboot intent changed while being read";
}

abbrev pub unreadable : Result Json → Result Json
unreadable (ok v) = ok v
unreadable (err e) = err "pending reboot intent is unreadable"

-- Bytes that are not ASCII cannot be the canonical text, and count as unreadable at once.
unfoldable pub decode : String → Result Json
decode raw = do
  reject (not (all_chars (λ c. ltb c 128) raw)) "pending reboot intent is unreadable"
  unreadable (loads raw)

abbrev pub as_object : Json → Result (Dict Json)
as_object (obj fs) = ok (entries fs)
as_object _ = err "pending reboot intent is not an object"

-- How the system answers the reading of a file.
abbrev pub Observer : Type 0
Observer = Node → Reading

unfoldable pub parse_intent : Request → String → Result (Dict Json)
unfolding decode
parse_intent r raw = do
  decoded ← decode raw
  values ← as_object decoded
  validate_intent values r
  reject (not (raw == canonical values)) "pending reboot intent is not canonical"
  ok values

abbrev pub load_node : Observer → Request → ℕ → Option Node → Result (Option (Dict Json))
load_node observe r getuid none = ok none
load_node observe r getuid (some n) = do
  reject (not (is_regular n.kind)) "pending reboot intent identity is invalid"
  raw ← read_checked getuid read_rule (observe n)
  values ← parse_intent r raw
  ok (some values)

unfoldable pub load_intent : Observer → Request → String → Disk → Result (Option (Dict Json))
load_intent observe r path d = do
  reject_conflicting_intents path d
  load_node observe r d.getuid (lookup path d.files)

-- `existing[key] != current`, and `existing[key] in {"0", current}`
abbrev pub field_is : String → Dict Json → String → Bool
field_is key existing current = is_str (lookup key existing) current

unfoldable pub is_resumed : Dict Json → Identity → Bool
is_resumed existing i = not (field_is "source_boot_id_sha256" existing i.boot_id_sha256)

abbrev pub same_counter : String → Dict Json → String → Bool
same_counter key existing current = field_is key existing "0" || field_is key existing current

unfoldable pub judge : Dict Json → Identity → Result (Dict Json × Bool)
unfolding is_resumed
judge existing i = do
  reject
      (not (is_resumed existing i)
        && (not (same_counter "source_system_server_pid" existing i.pid)
            || not (same_counter "source_system_server_start_ticks" existing i.start_ticks)))
      "system_server changed within the pending reboot source boot"
  ok (existing, is_resumed existing i)

-- The text of a new intent is written in one portion here.
abbrev pub begin_with :
    Fresh → Request → Identity → String → Disk → Option (Dict Json) → Result (Dict Json × Disk)
begin_with t r i path d (some existing) = ok (existing, d)
begin_with t r i path d none = do
  validate_intent (new_intent r i) r
  written ← write_intent t path (canonical (new_intent r i) ∷ []) d
  ok (new_intent r i, written)

-- `judge` does not raise on an intent that is written here, so an error leaves the disk as it was.
unfoldable pub begin_or_resume :
    Observer → Fresh → Request → Identity → String → Disk → Result (Dict Json × Bool × Disk)
begin_or_resume observe t r i path d = do
  found ← load_intent observe r path d
  (existing, d') ← begin_with t r i path d found
  (values, resumed) ← judge existing i
  ok (values, resumed, d')

unfoldable pub clear_intent : String → Disk → Disk
unfolding unlink
clear_intent path d = unlink path d
