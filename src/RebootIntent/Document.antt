-- ===== src/RebootIntent/Document.antt =====
-- The intent as a JSON object: `intent_path`, `validate_intent` and the object that
-- `begin_or_resume` makes, of tools/automation/reboot_intent.py.
pub mod Texts
use zygveil.Base.{
  ℕ, String, Bool, not, ◌&&◌, ◌||◌, List, [], ◌∷◌, Dict, has_exactly, lookup, eqb, is_digit,
  is_lower, is_upper, matches, matches_from, is_sha256, join, Result, ok, err, reject,
  if◌then◌else◌,
}
use zygveil.Json.{Json, int, text, is_int, is_str, str_and}

abbrev pub intent_keys : List String
intent_keys =
    "schema_version" ∷ "operation" ∷ "expected_state" ∷ "context_id" ∷ "source_boot_id_sha256"
    ∷ "source_system_server_pid" ∷ "source_system_server_start_ticks" ∷ []

abbrev pub is_name_char : ℕ → Bool
is_name_char c = is_lower c || is_digit c || eqb c b'-'

abbrev pub is_state_char : ℕ → Bool
is_state_char c = is_lower c || is_digit c || eqb c b'_'

-- `[a-z][a-z0-9-]{0,63}`
unfoldable pub is_name : String → Bool
unfolding matches_from
is_name = matches_from is_lower is_name_char 63

-- `[a-z][a-z0-9_]{0,63}`
unfoldable pub is_state_name : String → Bool
unfolding matches_from
is_state_name = matches_from is_lower is_state_char 63

abbrev pub is_context_char : ℕ → Bool
is_context_char c =
    is_upper c || is_lower c || is_digit c || eqb c b'.' || eqb c b'_' || eqb c b':' || eqb c b'-'

-- `[A-Za-z0-9._:-]{1,128}`
unfoldable pub is_context : String → Bool
unfolding matches
is_context = matches is_context_char 1 128

-- `[0-9]{1,20}`
unfoldable pub is_counter : String → Bool
unfolding matches
is_counter = matches is_digit 1 20

-- The file of an intent, inside the directory of the intents.
unfoldable pub intent_path : String → Result String
unfolding is_name join
intent_path name =
    if is_name name then ok (join name ".json") else err "reboot intent name is invalid"

-- What the caller wants to do.
pub record Request : Type 0 where
  pub operation : String
  pub expected_state : String
  pub context_id : String

-- The boot and the system_server process that the caller sees now.
pub record Identity : Type 0 where
  pub boot_id_sha256 : String
  pub pid : String
  pub start_ticks : String

-- The terms of the long condition, up to the last `or`.
unfoldable pub is_intent : Dict Json → Request → Bool
unfolding lookup
is_intent values r =
    has_exactly values intent_keys
    && is_int (lookup "schema_version" values) 2
    && is_name r.operation
    && is_state_name r.expected_state
    && is_context r.context_id
    && is_str (lookup "operation" values) r.operation
    && is_str (lookup "expected_state" values) r.expected_state
    && is_str (lookup "context_id" values) r.context_id
    && str_and is_sha256 (lookup "source_boot_id_sha256" values)
    && str_and is_counter (lookup "source_system_server_pid" values)
    && str_and is_counter (lookup "source_system_server_start_ticks" values)

unfoldable pub validate_intent : Dict Json → Request → Result (Unit {0})
validate_intent values r =
    reject (not (is_intent values r))
      "pending reboot intent does not match the requested transition"

-- The object of a new intent, in the order of the source.
unfoldable pub new_intent : Request → Identity → Dict Json
new_intent r i =
    ("schema_version", int 2)
    ∷ ("operation", text r.operation)
    ∷ ("expected_state", text r.expected_state)
    ∷ ("context_id", text r.context_id)
    ∷ ("source_boot_id_sha256", text i.boot_id_sha256)
    ∷ ("source_system_server_pid", text i.pid)
    ∷ ("source_system_server_start_ticks", text i.start_ticks)
    ∷ []
