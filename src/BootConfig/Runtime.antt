-- ===== src/BootConfig/Runtime.antt =====
-- `validate_runtime_status` of tools/automation/location_device.py: the status that the module writes
-- once it runs in system_server. `isdigit` is the one on ASCII. An integer of more than 4300 digits,
-- which `int` refuses, counts as out of range.
pub mod Identity
use Prim.Native.String.{len}
use zygveil.Base.{
  ℕ, ◌≤◌, String, Bool, true, false, not, ◌&&◌, ◌||◌, ◌==◌, List, [], ◌∷◌, Dict, has_exactly,
  lookup, item, is_text, any, all_chars, in_range, isdigit, decimal, eqb, ltb, same_bool, Result,
  ok, err, ◌>>=◌, ◌>>◌, reject, if◌then◌else◌,
}
use zygveil.LiveControl.Status.{has_text, is_uuid}
use zygveil.BootConfig.Config.{one_of}

abbrev pub runtime_keys : List String
runtime_keys =
    "schema_version" ∷ "state" ∷ "reason" ∷ "raw_gnss_mode" ∷ "hook_count" ∷ "system_server_pid"
    ∷ "system_server_start_ticks" ∷ "config_generation" ∷ "boot_id" ∷ "control_fd"
    ∷ "control_owner_pid" ∷ "control_owner_start_ticks" ∷ []

-- The dictionary of exactly these keys, with a field for each but `schema_version`, which is "4".
pub record Runtime : Type 0 where
  pub state : String
  pub reason : String
  pub raw_gnss_mode : String
  pub hook_count : String
  pub pid : String
  pub start_ticks : String
  pub generation : String
  pub boot_id : String
  pub control_fd : String
  pub owner_pid : String
  pub owner_ticks : String

unfoldable pub read_runtime : Dict String → Result Runtime
unfolding item
read_runtime d = do
  state ← item "state" d
  reason ← item "reason" d
  mode ← item "raw_gnss_mode" d
  hooks ← item "hook_count" d
  pid ← item "system_server_pid" d
  ticks ← item "system_server_start_ticks" d
  generation ← item "config_generation" d
  boot_id ← item "boot_id" d
  fd ← item "control_fd" d
  owner ← item "control_owner_pid" d
  owner_ticks ← item "control_owner_start_ticks" d
  ok (record {
    state = state;
    reason = reason;
    raw_gnss_mode = mode;
    hook_count = hooks;
    pid = pid;
    start_ticks = ticks;
    generation = generation;
    boot_id = boot_id;
    control_fd = fd;
    owner_pid = owner;
    owner_ticks = owner_ticks;
  })

abbrev pub forbidden_reason_tokens : List String
forbidden_reason_tokens =
    "=" ∷ "center_latitude_deg" ∷ "center_longitude_deg" ∷ "altitude_ellipsoid_m" ∷ "altitude_msl_m"
    ∷ "$" ∷ []

unfoldable pub check_runtime_words : Runtime → Result (Unit {0})
unfolding all_chars
check_runtime_words r = do
  reject (not (one_of r.state ("ready" ∷ "arming" ∷ "inactive" ∷ [])))
      "location runtime state is invalid"
  reject (not (one_of r.raw_gnss_mode ("blocked" ∷ "passthrough" ∷ "unknown" ∷ [])))
      "location runtime Raw GNSS mode is invalid"
  reject
      (not (in_range 1 256 (len r.reason))
        || not (all_chars (in_range 0x20 0x7e) r.reason)
        || any (λ token. has_text token r.reason) forbidden_reason_tokens)
      "location runtime reason is not bounded coordinate-free ASCII"

abbrev runtime_integer : String → String → Result (Unit {0})
runtime_integer message value = reject (not (isdigit value)) message

unfoldable pub check_runtime_digits : Runtime → Result (Unit {0})
unfolding isdigit
check_runtime_digits r = do
  runtime_integer "location runtime integer is invalid: hook_count" r.hook_count
  runtime_integer "location runtime integer is invalid: system_server_pid" r.pid
  runtime_integer "location runtime integer is invalid: system_server_start_ticks" r.start_ticks
  runtime_integer "location runtime integer is invalid: config_generation" r.generation
  runtime_integer "location runtime integer is invalid: control_fd" r.control_fd
  runtime_integer "location runtime integer is invalid: control_owner_pid" r.owner_pid
  runtime_integer "location runtime integer is invalid: control_owner_start_ticks" r.owner_ticks

-- What `int` makes of the integers.
pub record Counts : Type 0 where
  pub hooks : ℕ
  pub pid : ℕ
  pub start_ticks : ℕ
  pub generation : ℕ
  pub control_fd : ℕ
  pub owner_pid : ℕ
  pub owner_ticks : ℕ

unfoldable pub counts : Runtime → Counts
unfolding decimal
counts r = record {
  hooks = decimal r.hook_count;
  pid = decimal r.pid;
  start_ticks = decimal r.start_ticks;
  generation = decimal r.generation;
  control_fd = decimal r.control_fd;
  owner_pid = decimal r.owner_pid;
  owner_ticks = decimal r.owner_ticks;
}

unfoldable pub exceeds_wire : Counts → Bool
exceeds_wire n =
    ltb 0xffffffff n.hooks
    || ltb 0xffffffff n.pid
    || ltb 0xffffffffffffffff n.start_ticks
    || ltb 0x3fffffffffffffff n.generation
    || ltb 0x7fffffff n.control_fd
    || ltb 0xffffffff n.owner_pid
    || ltb 0xffffffffffffffff n.owner_ticks

unfoldable pub is_incomplete : Runtime → Counts → Bool
is_incomplete r n =
    eqb n.pid 0
    || eqb n.start_ticks 0
    || not (r.hook_count == "5")
    || eqb n.generation 0
    || ltb n.control_fd 3
    || eqb n.owner_pid 0
    || eqb n.owner_ticks 0
    || r.raw_gnss_mode == "unknown"

unfoldable pub has_control : Runtime → Bool
has_control r =
    not (r.hook_count == "0")
    || not (r.control_fd == "0")
    || not (r.owner_pid == "0")
    || not (r.owner_ticks == "0")

unfoldable pub check_runtime_identity : Runtime → Counts → Result (Unit {0})
check_runtime_identity r n = do
  let ready = r.state == "ready"
  reject (ready && is_incomplete r n) "location ready runtime identity is invalid"
  reject (not (same_bool (eqb n.pid 0) (eqb n.start_ticks 0)))
      "location runtime process identity is inconsistent"
  reject (not (same_bool (eqb n.owner_pid 0) (eqb n.owner_ticks 0)))
      "location runtime control-owner identity is inconsistent"
  reject (not ready && has_control r) "location inactive runtime control identity is invalid"

unfoldable pub check_runtime : Runtime → Result (Unit {0})
unfolding is_uuid
check_runtime r = do
  check_runtime_words r
  check_runtime_digits r
  reject (exceeds_wire (counts r)) "location runtime integer exceeds its wire range"
  reject (not (is_uuid r.boot_id)) "location runtime boot identity is invalid"
  check_runtime_identity r (counts r)

unfoldable pub validate_runtime_status : Dict String → Result Runtime
unfolding lookup
validate_runtime_status values = do
  reject
      (not (has_exactly values runtime_keys) || not (is_text (lookup "schema_version" values) "4"))
      "location runtime status schema/key set mismatch"
  r ← read_runtime values
  check_runtime r
  ok r
