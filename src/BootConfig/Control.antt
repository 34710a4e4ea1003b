-- ===== src/BootConfig/Control.antt =====
-- `live_status_matches_runtime`, `process_start_ticks` and `inspect_live_control` of
-- tools/automation/location_device.py, without the lines that go into the report: whether the helper and
-- the memory that it controls are the module's. What its commands answer is the parameter Control.
use zygveil.Base.{
  ℕ, ◌/◌, ◌%◌, ◌+◌, ◌-◌, ◌*◌, String, Bool, true, false, not, ◌&&◌, ◌==◌, Option, none, some, List,
  [], ◌∷◌, Dict, all, contains, lookup, is_text, is_sha256, in_range, isdigit, decimal, eqb, ltb,
  strip, lstrip, drop_char, words, starts_with, Result, ok, err, ◌>>◌, reject, if◌then◌else◌,
}
use Prim.Native.Char.{code}
use zygveil.Adb.Process.{CommandResult, stat_fields, field_at}
use zygveil.LiveControl.Status.{Status}
use zygveil.LiveControl.Generations.{parse_status}
use zygveil.LiveControl.Session.{prints}
use zygveil.BootConfig.Runtime.{Runtime}

abbrev pub ticks_or_unavailable : ℕ → Option String → String
ticks_or_unavailable code none = "unavailable"
ticks_or_unavailable code (some ticks) =
    if eqb code 0 && isdigit ticks then ticks else "unavailable"

-- What `cat /proc/<pid>/stat` answers.
unfoldable pub process_start_ticks : CommandResult → String
unfolding strip stat_fields isdigit
process_start_ticks result =
    ticks_or_unavailable result.returncode (field_at 19 (stat_fields (strip result.stdout)))

unfoldable pub live_status_matches_runtime : Dict String → Runtime → Status → String → String → Bool
unfolding lookup
live_status_matches_runtime config runtime s pid boot_id =
    let expected_state = if is_text (lookup "enabled" config) "true" then "active" else "waiting" in
    s.module_state == expected_state
    && s.runtime_state == expected_state
    && is_text (lookup "raw_gnss_mode" config) s.raw_gnss_mode
    && s.boot_config_generation == runtime.generation
    && is_text (lookup "config_generation" config) s.persisted_generation
    && s.system_server_pid == pid
    && s.system_server_start_ticks == runtime.start_ticks
    && s.boot_id == boot_id

-- What `inspect_live_control` sees of the device: the answers of its commands, in their order.
pub record Control : Type 0 where
  pub module_stat : CommandResult
  pub helper_stat : CommandResult
  pub owner_stat : CommandResult
  pub memfd_target : CommandResult
  pub memfd_stat : CommandResult
  pub fdinfo : CommandResult
  pub helper_digest : CommandResult
  pub status : CommandResult

-- The digits of a number to the base 8 up to the end of the line, at least one.
abbrev pub octal_line : Bool → ℕ → String → Option ℕ
octal_line seen n String.[] = if seen then some n else none
octal_line seen n (String.◌∷◌ c s) =
    let rest = octal_line true (n * 8 + (code c - b'0')) s in
    if in_range b'0' b'7' (code c) then rest else if seen && eqb (code c) 10 then some n else none

-- `re.search(r"(?m)^flags:\s*([0-7]+)$", s)`, read to the base 8
unfoldable pub descriptor_flags : Bool → String → Option ℕ
unfolding starts_with drop_char lstrip
descriptor_flags start String.[] = none
descriptor_flags start (String.◌∷◌ c s) =
    let later = descriptor_flags (eqb (code c) 10) s in
    let value = lstrip (drop_char (drop_char (drop_char (drop_char (drop_char s))))) in
    if start && starts_with "flags:" (String.◌∷◌ c s)
    then elim (octal_line false 0 value) [ none ↦ later | some n ↦ some n ]
    else later

-- `flags & O_ACCMODE == O_RDWR and flags & O_CLOEXEC != 0`
abbrev pub is_read_write_cloexec : Option ℕ → Bool
is_read_write_cloexec none = false
is_read_write_cloexec (some flags) = eqb (flags % 4) 2 && eqb (flags / 0o2000000 % 2) 1

unfoldable pub owner_identity : Runtime → Control → Bool
unfolding isdigit decimal process_start_ticks
owner_identity r c =
    isdigit r.owner_pid
    && ltb 0 (decimal r.owner_pid)
    && process_start_ticks c.owner_stat == r.owner_ticks

unfoldable pub memfd_identity : Control → Bool
unfolding strip descriptor_flags
memfd_identity c =
    prints c.memfd_target "/memfd:zygveil-location-control (deleted)"
    && prints c.memfd_stat "regular file:777:0:0:0:4096"
    && eqb c.fdinfo.returncode 0
    && is_read_write_cloexec (descriptor_flags true c.fdinfo.stdout)

abbrev two_words : List String → List String → Bool
two_words expected (digest ∷ name ∷ []) = all is_sha256 expected && contains expected digest
two_words expected _ = false

unfoldable pub helper_hash_matches : List String → Control → Bool
unfolding words is_sha256
helper_hash_matches expected c =
    eqb c.helper_digest.returncode 0 && two_words expected (words c.helper_digest.stdout)

-- The status of the helper, if the module's files are what they have to be.
unfoldable pub read_helper_status : List String → Control → Result Status
unfolding strip
read_helper_status expected c = do
  reject (not (prints c.module_stat "directory:755:0:0")) "module_directory_identity_mismatch"
  reject (not (prints c.helper_stat "regular file:755:0:0:1")) "helper_identity_mismatch"
  reject (not (helper_hash_matches expected c)) "helper_hash_mismatch"
  reject (not (eqb c.status.returncode 0)) "status_unavailable"
  elim (parse_status c.status.stdout) [ err _ ↦ err "invalid_status" | ok s ↦ ok s ]

abbrev pub attested_by : Dict String → Runtime → Control → String → String → Result Status → Bool
attested_by config r c pid boot_id (err _) = false
attested_by config r c pid boot_id (ok s) =
    owner_identity r c && memfd_identity c && live_status_matches_runtime config r s pid boot_id

-- `control_attested`
unfoldable pub inspect_live_control :
    Dict String → Runtime → String → String → List String → Control → Bool
inspect_live_control config r pid boot_id expected c =
    attested_by config r c pid boot_id (read_helper_status expected c)
