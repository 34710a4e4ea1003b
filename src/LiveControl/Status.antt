-- ===== src/LiveControl/Status.antt =====
-- `parse_status` of tools/automation/location_live_control.py: the status that the on-device helper
-- prints, and the checks that it passes before it is believed.
use Prim.Native.String.{len}
use text.Mathlib.Text.{find?}
use zygveil.Base.{
  ℕ, ◌-◌, ◌*◌, ◌^◌, String, Bool, true, false, not, ◌&&◌, ◌||◌, ◌==◌, none, some, List, [], ◌∷◌,
  Dict, contains, any, item, isdigit, decimal, join, matches, is_lower, is_hex, count_chars, eqb,
  ltb, same_bool, Result, ok, ◌>>=◌, ◌>>◌, reject, if◌then◌else◌,
}
use Prim.Native.Nat.{suc}
use Prim.Native.Char.{code}

abbrev pub status_keys : List String
status_keys =
    "schema_version" ∷ "module_state" ∷ "runtime_state" ∷ "control_state" ∷ "reason"
    ∷ "raw_gnss_mode" ∷ "boot_config_generation" ∷ "persisted_generation" ∷ "published_generation"
    ∷ "applied_generation" ∷ "system_server_pid" ∷ "system_server_start_ticks" ∷ "boot_id" ∷ []

-- The dictionary of exactly these keys, with a field for each but `schema_version`, which is "1".
pub record Status : Type 0 where
  pub module_state : String
  pub runtime_state : String
  pub control_state : String
  pub reason : String
  pub raw_gnss_mode : String
  pub boot_config_generation : String
  pub persisted_generation : String
  pub published_generation : String
  pub applied_generation : String
  pub system_server_pid : String
  pub system_server_start_ticks : String
  pub boot_id : String

unfoldable pub read_fields : Dict String → Result Status
unfolding item
read_fields d = do
  module_state ← item "module_state" d
  runtime_state ← item "runtime_state" d
  control_state ← item "control_state" d
  reason ← item "reason" d
  raw_gnss_mode ← item "raw_gnss_mode" d
  boot ← item "boot_config_generation" d
  persisted ← item "persisted_generation" d
  published ← item "published_generation" d
  applied ← item "applied_generation" d
  pid ← item "system_server_pid" d
  ticks ← item "system_server_start_ticks" d
  boot_id ← item "boot_id" d
  ok (record {
    module_state = module_state;
    runtime_state = runtime_state;
    control_state = control_state;
    reason = reason;
    raw_gnss_mode = raw_gnss_mode;
    boot_config_generation = boot;
    persisted_generation = persisted;
    published_generation = published;
    applied_generation = applied;
    system_server_pid = pid;
    system_server_start_ticks = ticks;
    boot_id = boot_id;
  })

-- `needle in s`
abbrev pub has_text : String → String → Bool
has_text needle s = elim (find? s needle) [ none ↦ false | some _ ↦ true ]

unfoldable pub check_size : String → Result (Unit {0})
check_size text =
    reject (text == "" || ltb (16 * 1024) (len text) || has_text "\0" text)
      "live helper status size is invalid"

abbrev integer_error : String → String
integer_error = join "live helper status integer is invalid: "

unfoldable pub check_integers : Status → Result (Unit {0})
check_integers s = do
  reject (not (isdigit s.boot_config_generation)) (integer_error "boot_config_generation")
  reject (not (isdigit s.persisted_generation)) (integer_error "persisted_generation")
  reject (not (isdigit s.published_generation)) (integer_error "published_generation")
  reject (not (isdigit s.applied_generation)) (integer_error "applied_generation")
  reject (not (isdigit s.system_server_pid)) (integer_error "system_server_pid")
  reject (not (isdigit s.system_server_start_ticks)) (integer_error "system_server_start_ticks")

abbrev pub module_states : List String
module_states = "waiting" ∷ "active" ∷ "inactive" ∷ []

abbrev pub runtime_states : List String
runtime_states = "unavailable" ∷ "uninitialized" ∷ "arming" ∷ "waiting" ∷ "active" ∷ "inactive" ∷ []

abbrev pub control_states : List String
control_states =
    "unavailable" ∷ "awaiting_first_coordinates" ∷ "saved_pending_upstream" ∷ "saved_pending_reboot"
    ∷ "recovery_required" ∷ "applied" ∷ "rejected" ∷ []

abbrev pub raw_gnss_modes : List String
raw_gnss_modes = "blocked" ∷ "passthrough" ∷ []

abbrev token_error : String → String
token_error = join "live helper status token is invalid: "

unfoldable pub check_tokens : Status → Result (Unit {0})
check_tokens s = do
  reject (not (contains module_states s.module_state)) (token_error "module_state")
  reject (not (contains runtime_states s.runtime_state)) (token_error "runtime_state")
  reject (not (contains control_states s.control_state)) (token_error "control_state")
  reject (not (contains raw_gnss_modes s.raw_gnss_mode)) (token_error "raw_gnss_mode")

abbrev coordinate_keys : List String
coordinate_keys =
    "center_latitude_deg" ∷ "center_longitude_deg" ∷ "altitude_ellipsoid_m" ∷ "altitude_msl_m" ∷ []

-- `[a-z_]{1,64}`, and none of the coordinate keys inside
unfoldable pub check_reason : Status → Result (Unit {0})
check_reason s =
    reject
      (not (matches (λ c. is_lower c || eqb c b'_') 1 64 s.reason)
        || any (λ token. has_text token s.reason) coordinate_keys)
      "live helper status reason is invalid"

-- The places of the dashes in `[0-9a-f]{8}(?:-[0-9a-f]{4}){3}-[0-9a-f]{12}`.
abbrev is_dash_place : ℕ → Bool
is_dash_place i = eqb i 8 || eqb i 13 || eqb i 18 || eqb i 23

unfoldable pub uuid_from : ℕ → String → Bool
uuid_from i String.[] = true
uuid_from i (String.◌∷◌ c s) =
    (if is_dash_place i then eqb (code c) b'-' else is_hex (code c)) && uuid_from (suc i) s

unfoldable pub is_uuid : String → Bool
unfolding uuid_from count_chars
is_uuid s = eqb (count_chars s) 36 && uuid_from 0 s

unfoldable pub check_boot_id : Status → Result (Unit {0})
check_boot_id s =
    reject (not (s.boot_id == "unavailable") && not (is_uuid s.boot_id))
      "live helper status boot identity is invalid"

-- What `int` makes of the six numeric fields.
pub record Numbers : Type 0 where
  pub boot : ℕ
  pub persisted : ℕ
  pub published : ℕ
  pub applied : ℕ
  pub pid : ℕ
  pub ticks : ℕ

unfoldable pub numbers : Status → Numbers
numbers s = record {
  boot = decimal s.boot_config_generation;
  persisted = decimal s.persisted_generation;
  published = decimal s.published_generation;
  applied = decimal s.applied_generation;
  pid = decimal s.system_server_pid;
  ticks = decimal s.system_server_start_ticks;
}

unfoldable pub check_wire : Numbers → Result (Unit {0})
check_wire n =
    reject
      ((ltb (2 ^ 62 - 1) n.boot
          || ltb (2 ^ 62 - 1) n.persisted
          || ltb (2 ^ 62 - 1) n.published
          || ltb (2 ^ 62 - 1) n.applied)
        || ltb (2 ^ 32 - 1) n.pid
        || ltb (2 ^ 64 - 1) n.ticks)
      "live helper status integer exceeds its wire range"

abbrev pub is_active : Status → Bool
is_active s = s.module_state == "active" && s.runtime_state == "active"

abbrev pub is_waiting : Status → Bool
is_waiting s = s.module_state == "waiting" && s.runtime_state == "waiting"

unfoldable pub check_identity : Status → Numbers → Result (Unit {0})
check_identity s n = do
  reject
      ((is_active s || is_waiting s)
        && (eqb n.pid 0 || eqb n.ticks 0 || s.boot_id == "unavailable"))
      "live helper active identity is inconsistent"
  reject (not (same_bool (eqb n.pid 0) (eqb n.ticks 0)))
      "live helper process identity is inconsistent"

-- The status that the helper prints when it could do nothing at all.
unfoldable pub error_envelope : Status → Bool
error_envelope s =
    s.module_state == "inactive"
    && s.runtime_state == "unavailable"
    && s.control_state == "rejected"
    && not (s.reason == "none")
    && s.boot_id == "unavailable"
    && s.boot_config_generation == "0"
    && s.persisted_generation == "0"
    && s.published_generation == "0"
    && s.applied_generation == "0"
    && s.system_server_pid == "0"
    && s.system_server_start_ticks == "0"

abbrev pub transition_states : List String
transition_states =
    "applied" ∷ "saved_pending_upstream" ∷ "saved_pending_reboot" ∷ "recovery_required" ∷ "rejected"
    ∷ []

unfoldable pub check_transition : Status → Result (Unit {0})
check_transition s = do
  reject
      (contains transition_states s.control_state
        && not (is_active s)
        && not (is_waiting s)
        && not (error_envelope s))
      "live helper status has an impossible active transition"
  reject (s.control_state == "unavailable" && (is_active s || s.reason == "none"))
      "live helper unavailable state is inconsistent"
