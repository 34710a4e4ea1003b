-- ===== src/RebootIntent/Disk.antt =====
-- The directory of the intents, and the file operations that tools/automation/reboot_intent.py
-- makes in it. Failures of the device itself (I/O errors) are not modelled.
use zygveil.Base.{
  ℕ, String, Bool, true, false, not, ◌&&◌, ◌||◌, ◌==◌, Option, none, some, [], ◌∷◌, Dict, keys,
  lookup, insert, any, eqb, count_chars, Result, ok, err, ◌>>=◌, if◌then◌else◌,
}
use zygveil.SafeRead.{FileKind, directory, symlink, same_kind, Stat}

pub record Node : Type 0 where
  pub dev : ℕ
  pub ino : ℕ
  pub kind : FileKind
  pub perm : ℕ
  pub uid : ℕ
  pub nlink : ℕ
  pub mtime_ns : ℕ
  pub content : String

unfoldable pub fstat : Node → Stat
unfolding count_chars
fstat n = record {
  dev = n.dev;
  ino = n.ino;
  kind = n.kind;
  perm = n.perm;
  uid = n.uid;
  nlink = n.nlink;
  size = count_chars n.content;
  mtime_ns = n.mtime_ns;
}

-- The directory itself; a symbolic link stands for one to a directory.
pub record Folder : Type 0 where
  pub kind : FileKind
  pub perm : ℕ
  pub uid : ℕ

-- The directory, if it is there, its files by name, and who runs the automation.
pub record Disk : Type 0 where
  pub folder : Option Folder
  pub files : Dict Node
  pub getuid : ℕ

abbrev pub folder_mode : ℕ
folder_mode = 0o700

-- `directory.mkdir(mode=0o700, parents=True, exist_ok=True)`, and the `os.chmod` behind it
unfoldable pub secure_folder : ℕ → Option Folder → Result Folder
secure_folder getuid none = ok (record { kind = directory; perm = folder_mode; uid = getuid })
secure_folder getuid (some f) =
    if same_kind f.kind directory
    then (if eqb f.uid getuid
        then ok (record f { perm = folder_mode })
        else err "reboot intent directory mode could not be secured")
    else if same_kind f.kind symlink
    then ok f
    else err "FileExistsError"

-- The identity check: `false` means that there is no directory.
unfoldable pub check_folder : ℕ → Option Folder → Result Bool
check_folder getuid none = ok false
check_folder getuid (some f) =
    if same_kind f.kind directory && eqb f.perm folder_mode && eqb f.uid getuid
    then ok true
    else err "reboot intent directory identity is invalid"

-- `ensure_intent_directory(path, create=False)`
unfoldable pub inspect_directory : Disk → Result Bool
unfolding check_folder
inspect_directory d = check_folder d.getuid d.folder

-- `ensure_intent_directory(path, create=True)`. Where it raises it has changed
-- nothing: the mode is set only of a directory of the caller's own, which then passes the check.
unfoldable pub create_directory : Disk → Result Disk
unfolding secure_folder check_folder
create_directory d = do
  f ← secure_folder d.getuid d.folder
  found ← check_folder d.getuid (some f)
  ok (record d { folder = some f })

-- `s.endswith(suffix)`
unfoldable pub ends_with : String → String → Bool
ends_with suffix String.[] = suffix == ""
ends_with suffix (String.◌∷◌ c s) = String.◌∷◌ c s == suffix || ends_with suffix s

abbrev pub is_conflict : String → String → Bool
is_conflict path candidate = not (candidate == path) && ends_with ".json" candidate

abbrev pub reject_listed : Bool → Bool → Result (Unit {0})
reject_listed false conflicts = ok tt
reject_listed true false = ok tt
reject_listed true true = err "a different reboot-bearing transition is still pending"

unfoldable pub reject_conflicting_intents : String → Disk → Result (Unit {0})
unfolding inspect_directory ends_with
reject_conflicting_intents path d = do
  found ← inspect_directory d
  reject_listed found (any (is_conflict path) (keys d.files))

-- `path.unlink(missing_ok=True)`
unfoldable pub without : String → Dict Node → Dict Node
without k [] = []
without k ((j, n) ∷ d) = let rest = without k d in if j == k then rest else (j, n) ∷ rest

unfoldable pub unlink : String → Disk → Disk
unfolding without
unlink path d = record d { files = without path d.files }

-- `os.replace(from, to)`: the file of one name takes the other, whatever was there.
abbrev pub moved : String → String → Option Node → Disk → Disk
moved from to none d = d
moved from to (some n) d = record d { files = insert to n (without from d.files) }

unfoldable pub replace : String → String → Disk → Disk
unfolding without insert lookup
replace from to d = moved from to (lookup from d.files) d

abbrev pub changed : String → (Node → Node) → Option Node → Disk → Disk
changed path f none d = d
changed path f (some n) d = record d { files = insert path (f n) d.files }

-- A change of the file of a name, if it is there.
unfoldable pub update_file : String → (Node → Node) → Disk → Disk
unfolding insert lookup
update_file path f d = changed path f (lookup path d.files) d
