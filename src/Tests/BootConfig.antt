-- ===== src/Tests/BootConfig.antt =====
-- The theorems about the boot configuration at a small configuration.
use zygveil.Base.{
  join, ℕ, String, ◌≡◌, refl, Bool, true, false, not, ◌&&◌, [], ◌∷◌, Dict, keys, contains, lookup,
  insert, integer, ltb, eqb, ok, splitlines,
}
use zygveil.BootConfig.{config_keys, read_properties}
use zygveil.BootConfig.Config.{
  Floats, validate_config, resolve_boot_config, render_config, check_header, parse_floats,
  check_position, check_motion, check_integers_of, validate_boot_input, completed, same_input,
  rendered,
}
use zygveil.BootConfig.Config.Bounds.{IsConfig, validate_config_sound}
use zygveil.BootConfig.Config.Resolve.{IsResolved, resolve_boot_config_sound}
use zygveil.BootConfig.Config.Rendered.{render_config-read_properties}
use zygveil.Adb.Process.{CommandResult}
use zygveil.BootConfig.Runtime.{
  Runtime, validate_runtime_status, read_runtime, check_runtime, check_runtime_words,
  check_runtime_digits, exceeds_wire, counts, check_runtime_identity, is_incomplete,
}
use zygveil.BootConfig.Runtime.Identity.{IsRuntime, validate_runtime_status_sound}
use zygveil.BootConfig.Control.{
  Control, inspect_live_control, read_helper_status, helper_hash_matches, owner_identity,
  memfd_identity, live_status_matches_runtime,
}
use zygveil.BootConfig.State.{
  Evidence, ModuleState, inspect_module, state_name, findings, load_config, runtime_attested,
  runtime_ready,
}
use zygveil.BootConfig.State.Active.{IsRunning, inspect_module_sound}
use zygveil.LiveControl.Generations.{
  parse_status, check_schema, check_status, check_generations, applied_demand,
}
use zygveil.LiveControl.Status.{
  check_size, read_fields, check_integers, check_tokens, check_reason, check_boot_id, check_wire,
  numbers, check_identity, check_transition,
}
use zygveil.LiveControl.Properties.{parse_properties}

-- Numbers without a fraction: whether there is a minus sign, and the absolute value.
abbrev below : Bool × ℕ → Bool × ℕ → Bool
below (true, m) (true, n) = ltb n m
below (true, m) (false, n) = not (eqb m 0 && eqb n 0)
below (false, m) (true, n) = false
below (false, m) (false, n) = ltb m n

abbrev pub floats : Floats
floats = record {
  Float = Bool × ℕ;
  float_of = integer;
  is_finite = λ x. true;
  of_int = λ n. (false, n);
  negative = λ n. (true, n);
  at_most = λ a b. not (below b a);
  less = below;
}

abbrev pub input : String → Dict String
input latitude =
    ("schema_version", "1")
    ∷ ("raw_gnss_mode", "blocked")
    ∷ ("center_latitude_deg", latitude)
    ∷ ("center_longitude_deg", "-20")
    ∷ ("altitude_ellipsoid_m", "30")
    ∷ ("altitude_msl_m", "10")
    ∷ ("horizontal_jitter_sigma_m", "2")
    ∷ ("horizontal_jitter_radius_m", "5")
    ∷ ("horizontal_correlation_time_s", "30")
    ∷ ("vertical_jitter_sigma_m", "3")
    ∷ ("accuracy_correlation_time_s", "60")
    ∷ ("speed_deadband_mps", "1")
    ∷ ("speed_max_mps", "3")
    ∷ ("bearing_min_speed_mps", "2")
    ∷ ("random_seed", "7")
    ∷ []

abbrev pub config : String → String → Dict String
config latitude generation =
    ("enabled", "false") ∷ ("config_generation", generation) ∷ input latitude

abbrev pub next : Dict String
next = insert "config_generation" "5" (insert "enabled" "false" (input "11"))

accepted : validate_config floats (config "10" "4") ≡ ok tt
unfolding validate_config check_header parse_floats integer check_position check_motion
    check_integers_of
accepted = refl

validate_config_sound_example : IsConfig floats (config "10" "4")
validate_config_sound_example = validate_config_sound floats (config "10" "4") accepted

resolved : resolve_boot_config floats (input "11") (config "10" "4") ≡ ok (next, true)
unfolding resolve_boot_config validate_boot_input validate_config check_header completed
    parse_floats integer check_position check_motion check_integers_of same_input
resolved = refl

resolve_boot_config_sound_example : IsResolved floats (input "11") (config "10" "4") next true
resolve_boot_config_sound_example =
    resolve_boot_config_sound floats (input "11") (config "10" "4") next true resolved

abbrev text : String
text =
    "# a comment\n\nenabled = false\nconfig_generation=4\nschema_version=1\nraw_gnss_mode=blocked\ncenter_latitude_deg=10\ncenter_longitude_deg=-20\naltitude_ellipsoid_m=30\naltitude_msl_m=10\nhorizontal_jitter_sigma_m=2\nhorizontal_jitter_radius_m=5\nhorizontal_correlation_time_s=30\nvertical_jitter_sigma_m=3\naccuracy_correlation_time_s=60\nspeed_deadband_mps=1\nspeed_max_mps=3\nbearing_min_speed_mps=2\nrandom_seed=7\n"

abbrev written : String
written =
    "schema_version=1\nenabled=false\nraw_gnss_mode=blocked\ncenter_latitude_deg=10\ncenter_longitude_deg=-20\naltitude_ellipsoid_m=30\naltitude_msl_m=10\nhorizontal_jitter_sigma_m=2\nhorizontal_jitter_radius_m=5\nhorizontal_correlation_time_s=30\nvertical_jitter_sigma_m=3\naccuracy_correlation_time_s=60\nspeed_deadband_mps=1\nspeed_max_mps=3\nbearing_min_speed_mps=2\nrandom_seed=7\nconfig_generation=4\n"

read : read_properties true text ≡ ok (config "10" "4")
unfolding read_properties splitlines
read = refl

rendered_text : render_config floats (config "10" "4") ≡ ok written
unfolding render_config validate_config check_header parse_floats integer check_position
    check_motion check_integers_of rendered
rendered_text = refl

render_config-read_properties_example :
    (again : Dict String) × (read_properties true written ≡ ok again)
    × (keys again ≡ config_keys)
    × ((k : String) → contains config_keys k ≡ true → lookup k again ≡ lookup k (config "10" "4"))
render_config-read_properties_example =
    render_config-read_properties floats true text (config "10" "4") written read rendered_text

abbrev boot_id : String
boot_id = "01234567-89ab-cdef-0123-456789abcdef"

abbrev runtime_text : String
runtime_text =
    "schema_version=4\nstate=ready\nreason=none\nraw_gnss_mode=blocked\nhook_count=5\nsystem_server_pid=1234\nsystem_server_start_ticks=567\nconfig_generation=3\nboot_id=01234567-89ab-cdef-0123-456789abcdef\ncontrol_fd=9\ncontrol_owner_pid=77\ncontrol_owner_start_ticks=88\n"

abbrev runtime : Runtime
runtime = record {
  state = "ready";
  reason = "none";
  raw_gnss_mode = "blocked";
  hook_count = "5";
  pid = "1234";
  start_ticks = "567";
  generation = "3";
  boot_id = boot_id;
  control_fd = "9";
  owner_pid = "77";
  owner_ticks = "88";
}

abbrev runtime_values : Dict String
runtime_values =
    ("schema_version", "4")
    ∷ ("state", "ready")
    ∷ ("reason", "none")
    ∷ ("raw_gnss_mode", "blocked")
    ∷ ("hook_count", "5")
    ∷ ("system_server_pid", "1234")
    ∷ ("system_server_start_ticks", "567")
    ∷ ("config_generation", "3")
    ∷ ("boot_id", boot_id)
    ∷ ("control_fd", "9")
    ∷ ("control_owner_pid", "77")
    ∷ ("control_owner_start_ticks", "88")
    ∷ []

validated : validate_runtime_status runtime_values ≡ ok runtime
unfolding validate_runtime_status read_runtime check_runtime check_runtime_words
    check_runtime_digits exceeds_wire counts check_runtime_identity is_incomplete
validated = refl

validate_runtime_status_sound_example : IsRuntime runtime
validate_runtime_status_sound_example =
    validate_runtime_status_sound runtime_values runtime validated

abbrev printed : String → CommandResult
printed s = record { returncode = 0; stdout = s }

abbrev owner_stat : CommandResult
owner_stat = printed "77 (zygote64) S 1 2 3 4 5 6 7 8 9 10 11 12 13 14 15 16 17 18 88 20\n"

abbrev digest : String
digest = "aaaaaaaaaaaaaaaaaaaaaaaaaaaaaaaaaaaaaaaaaaaaaaaaaaaaaaaaaaaaaaaa"

abbrev control : Control
control = record {
  module_stat = printed "directory:755:0:0\n";
  helper_stat = printed "regular file:755:0:0:1\n";
  owner_stat = owner_stat;
  memfd_target = printed "/memfd:zygveil-location-control (deleted)\n";
  memfd_stat = printed "regular file:777:0:0:0:4096\n";
  fdinfo = printed "pos:\t0\nflags:\t02000002\nmnt_id:\t1\n";
  helper_digest = printed (join digest "  /data/adb/modules/zygveil/locationctl\n");
  status =
      printed
        "schema_version=1\nmodule_state=waiting\nruntime_state=waiting\ncontrol_state=applied\nreason=none\nraw_gnss_mode=blocked\nboot_config_generation=3\npersisted_generation=4\npublished_generation=4\napplied_generation=4\nsystem_server_pid=1234\nsystem_server_start_ticks=567\nboot_id=01234567-89ab-cdef-0123-456789abcdef\n";
}

abbrev evidence : Evidence
evidence = record {
  live_installed = true;
  staged_installed = false;
  native_mapped = true;
  disabled = false;
  remove_pending = false;
  pid = "1234";
  start_ticks = "567";
  boot_id = join boot_id "\n";
  config_text = text;
  runtime_text = runtime_text;
  guard_text = "state=valid\n";
  owner_stat = owner_stat;
  expected_helpers = digest ∷ [];
  control = control;
}

inspected : inspect_module floats evidence ≡ ok ModuleState.waiting
unfolding inspect_module read_properties splitlines state_name findings load_config validate_config
    check_header parse_floats integer check_position check_motion check_integers_of
    validate_runtime_status read_runtime check_runtime check_runtime_words check_runtime_digits
    exceeds_wire counts check_runtime_identity is_incomplete runtime_attested runtime_ready
    inspect_live_control read_helper_status helper_hash_matches parse_status check_size
    parse_properties check_schema read_fields check_status check_integers check_tokens check_reason
    check_boot_id check_wire numbers check_identity check_transition check_generations
    applied_demand owner_identity memfd_identity live_status_matches_runtime
inspected = refl

inspect_module_sound_example :
    (ModuleState.waiting ≡ ModuleState.active → IsRunning floats evidence false)
    × (ModuleState.waiting ≡ ModuleState.waiting → IsRunning floats evidence true)
inspect_module_sound_example = inspect_module_sound floats evidence ModuleState.waiting inspected
