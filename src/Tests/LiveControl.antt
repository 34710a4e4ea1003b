-- ===== src/Tests/LiveControl.antt =====
-- The theorems about the live control at concrete statuses.
use zygveil.Base.{
  [], ◌∷◌, ◌<◌, String, splitlines, strip, split_once, insert, isdigit, matches, ◌≡◌, ◌≢◌, ◌↔◌,
  refl, true, false, ◌||◌, some, contains, decimal, ok,
}
use zygveil.LiveControl.Status.{
  Status, numbers, error_envelope, is_uuid, is_active, is_waiting, check_size, check_integers,
  check_tokens, check_reason, check_boot_id, check_wire, check_identity, check_transition,
  read_fields,
}
use zygveil.LiveControl.Properties.{parse_properties}
use zygveil.LiveControl.Properties.Fields.{Entries, IsValid, parse_properties_sound}
use zygveil.LiveControl.Generations.{
  accepted_states, require_expected_control, check_generations, applied_demand, check_schema,
  check_status, parse_status,
}
use zygveil.LiveControl.Generations.Expected.{Meets, require_expected_control_iff}
use zygveil.LiveControl.Generations.Order.{
  IsOrdered, FitsWire, parse_status-IsOrdered, parse_status_wire,
}
use zygveil.LiveControl.Update.{
  Observed, check_unchanged, check_accepted, check_rejected, judge_update,
}
use zygveil.LiveControl.Update.Growth.{
  IsUnchanged, HasGrown, judge_update_lem, judge_update_rejected,
}

abbrev text : String
text =
    "schema_version=1\nmodule_state=active\nruntime_state=active\ncontrol_state=applied\nreason=none\nraw_gnss_mode=blocked\nboot_config_generation=3\npersisted_generation=5\npublished_generation=5\napplied_generation=5\nsystem_server_pid=1234\nsystem_server_start_ticks=567\nboot_id=01234567-89ab-cdef-0123-456789abcdef\n"

abbrev applied_five : Status
applied_five = record {
  module_state = "active";
  runtime_state = "active";
  control_state = "applied";
  reason = "none";
  raw_gnss_mode = "blocked";
  boot_config_generation = "3";
  persisted_generation = "5";
  published_generation = "5";
  applied_generation = "5";
  system_server_pid = "1234";
  system_server_start_ticks = "567";
  boot_id = "01234567-89ab-cdef-0123-456789abcdef";
}

parsed : parse_status text ≡ ok applied_five
unfolding parse_status check_size check_schema read_fields check_status check_integers check_tokens
    check_reason check_boot_id check_wire numbers check_identity check_transition error_envelope
    check_generations applied_demand parse_properties splitlines strip split_once insert isdigit
    is_uuid matches decimal
parsed = refl

parse_status-IsOrdered_example : IsOrdered (numbers applied_five)
unfolding error_envelope
parse_status-IsOrdered_example = parse_status-IsOrdered text applied_five parsed refl refl

parse_status_wire_example :
    FitsWire (numbers applied_five)
    × ((numbers applied_five).pid ≡ 0 ↔ (numbers applied_five).ticks ≡ 0)
    × ((is_active applied_five || is_waiting applied_five) ≡ true
        → (0 < (numbers applied_five).pid)
          × (0 < (numbers applied_five).ticks)
          × (applied_five.boot_id ≢ "unavailable"))
parse_status_wire_example = parse_status_wire text applied_five parsed

require_expected_control_iff_example :
    require_expected_control applied_five "accepted" (some 0) ≡ ok tt ↔ Meets "applied" "accepted" 0
require_expected_control_iff_example = require_expected_control_iff applied_five "accepted" 0

abbrev applied_four : Status
applied_four = record applied_five {
  persisted_generation = "4";
  published_generation = "4";
  applied_generation = "4";
}

abbrev grown : Observed
grown = record {
  poc = false;
  before = applied_four;
  before_start_ticks = "567";
  before_config_digest = "old";
  returncode = 0;
  response = applied_five;
  after = applied_five;
  after_start_ticks = "567";
  after_config_digest = "new";
}

grown_passes : judge_update grown "" ≡ ok tt
unfolding judge_update check_unchanged check_accepted check_rejected require_expected_control
    decimal
grown_passes = refl

judge_update_lem_example :
    IsUnchanged grown
    × HasGrown grown
    × (contains accepted_states "applied" ≡ true)
    × (grown.returncode ≡ 0)
judge_update_lem_example = judge_update_lem grown grown_passes

abbrev refused : Observed
refused = record grown {
  returncode = 1;
  response = record applied_five { control_state = "rejected"; reason = "invalid_request" };
  before = applied_five;
  after_config_digest = "old";
}

refused_passes : judge_update refused "rejected" ≡ ok tt
unfolding judge_update check_unchanged check_accepted check_rejected require_expected_control
refused_passes = refl

judge_update_rejected_example :
    (refused.before.persisted_generation ≡ refused.after.persisted_generation)
    × (refused.before.applied_generation ≡ refused.after.applied_generation)
    × (refused.poc ≡ false → refused.before_config_digest ≡ refused.after_config_digest)
judge_update_rejected_example = judge_update_rejected refused "rejected" refused_passes refl

abbrev few_fields : String
few_fields = " a = 1\r\n\nb=x=y\n"

few_parsed : parse_properties few_fields ≡ ok (("a", "1") ∷ ("b", "x=y") ∷ [])
unfolding parse_properties splitlines strip split_once insert
few_parsed = refl

parse_properties_sound_example :
    Entries (splitlines few_fields) (("a", "1") ∷ ("b", "x=y") ∷ [])
    × IsValid (("a", "1") ∷ ("b", "x=y") ∷ [])
parse_properties_sound_example =
    parse_properties_sound few_fields (("a", "1") ∷ ("b", "x=y") ∷ []) few_parsed
