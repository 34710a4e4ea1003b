-- ===== src/SafeRead.antt =====
-- The reading of a private file through one descriptor, which the automation repeats for each of
-- its private inputs: tools/automation/reboot_intent.py (load_intent),
-- tools/automation/location_live_control.py (read_private_file), tools/automation/location_device.py
-- (read_private_config), tools/automation/probe.py (read_private_oracle_input) and
-- tools/automation/location_final_inputs.py (load_private_receipt). They differ in the limit and in
-- the messages. A file's bytes are the characters of a text.
pub mod Exact
use zygveil.Base.{
  ℕ, ◌-◌, ◌*◌, String, Bool, true, false, not, ◌&&◌, ◌||◌, ◌==◌, List, [], ◌∷◌, count_chars, join,
  eqb, ltb, leb, Result, ok, err, ◌>>=◌, ◌>>◌, reject, if◌then◌else◌,
}

-- `S_IFMT(st_mode)`
pub data FileKind : Type 0 where
  regular directory symlink other : FileKind

abbrev pub is_regular : FileKind → Bool
is_regular regular = true
is_regular _ = false

abbrev pub same_kind : FileKind → FileKind → Bool
same_kind regular regular = true
same_kind directory directory = true
same_kind symlink symlink = true
same_kind other other = true
same_kind _ _ = false

-- `kind` and `perm` are the two parts of `st_mode`.
pub record Stat : Type 0 where
  pub dev : ℕ
  pub ino : ℕ
  pub kind : FileKind
  pub perm : ℕ
  pub uid : ℕ
  pub nlink : ℕ
  pub size : ℕ
  pub mtime_ns : ℕ

-- What the system answers while a file is read: `fstat` before, the results of the `os.read` calls
-- in turn (at the list's end the file is at its end), and `fstat` after. A file that somebody
-- writes meanwhile may answer anything.
pub record Reading : Type 0 where
  pub before : Stat
  pub blocks : List String
  pub after : Stat

pub record Rule : Type 0 where
  pub limit : ℕ
  pub identity_error : String
  pub changed_error : String

abbrev pub private_mode : ℕ
private_mode = 0o600

unfoldable pub is_private : ℕ → ℕ → Stat → Bool
is_private getuid limit s =
    is_regular s.kind
    && eqb s.perm private_mode
    && eqb s.uid getuid
    && eqb s.nlink 1
    && ltb 0 s.size
    && leb s.size limit

-- The stable fields.
unfoldable pub same_stat : Stat → Stat → Bool
same_stat a b =
    eqb a.dev b.dev
    && eqb a.ino b.ino
    && same_kind a.kind b.kind
    && eqb a.perm b.perm
    && eqb a.uid b.uid
    && eqb a.nlink b.nlink
    && eqb a.size b.size
    && eqb a.mtime_ns b.mtime_ns

-- `while remaining`, and the read of one more byte behind it
unfoldable pub read_all : String → ℕ → List String → Result String
read_all changed remaining [] = if eqb remaining 0 then ok "" else err changed
read_all changed remaining (block ∷ blocks) =
    let rest = read_all changed (remaining - count_chars block) blocks in
    if eqb remaining 0
    then (if block == "" then ok "" else err changed)
    else if block == ""
    then err changed
    else rest >>= λ s. ok (join block s)

unfoldable pub read_checked : ℕ → Rule → Reading → Result String
unfolding read_all is_private same_stat count_chars join
read_checked getuid rule r = do
  reject (not (is_private getuid rule.limit r.before)) rule.identity_error
  bytes ← read_all rule.changed_error r.before.size r.blocks
  reject (not (same_stat r.before r.after)) rule.changed_error
  ok bytes

-- What a path given by the user resolves to: whether it resolves at all, whether that lies below
-- the ignored `.state` directory, whether the path is a symbolic link, and whether it opens.
pub record Target : Type 0 where
  pub resolves : Bool
  pub below_state : Bool
  pub is_symlink : Bool
  pub opens : Bool
  pub reading : Reading

-- The beginning that the three readers of user-given paths share, with their messages.
unfoldable pub read_target : String → String → String → ℕ → Rule → Target → Result String
read_target unavailable misplaced unopened getuid rule t = do
  reject (not t.resolves) unavailable
  reject (not t.below_state || t.is_symlink) misplaced
  reject (not t.opens) unopened
  read_checked getuid rule t.reading

-- `read_private_file`
unfoldable pub read_private_file : ℕ → Target → Result String
unfolding read_target read_checked
read_private_file getuid =
    read_target "live configuration is unavailable"
      "live configuration must be a regular file below ignored .state"
      "live configuration could not be opened safely" getuid
      (record {
        limit = 1024;
        identity_error = "live configuration owner/mode/type/size is invalid";
        changed_error = "live configuration changed while being read";
      })

-- The bytes that `read_private_config` hands on to its parser.
unfoldable pub read_config_bytes : ℕ → Target → Result String
unfolding read_target read_checked
read_config_bytes getuid =
    read_target "private boot configuration is unavailable"
      "boot configuration must be a regular file below ignored .state"
      "private boot configuration could not be opened safely" getuid
      (record {
        limit = 32 * 1024;
        identity_error = "boot configuration owner/mode/type/size is invalid";
        changed_error = "boot configuration changed while being read";
      })

-- The bytes that `read_private_oracle_input` hands on to its parser.
unfoldable pub read_oracle_bytes : ℕ → Target → Result String
unfolding read_target read_checked
read_oracle_bytes getuid =
    read_target "location oracle file is unavailable"
      "location oracle must be a regular file below ignored .state"
      "location oracle file could not be opened safely" getuid
      (record {
        limit = 1024;
        identity_error = "location oracle owner/mode/type/size is invalid";
        changed_error = "location oracle changed while being read";
      })
