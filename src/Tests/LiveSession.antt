-- ===== src/Tests/LiveSession.antt =====
-- The theorems about a whole live update at a concrete file and device.
use zygveil.Base.{
  String, ◌≡◌, refl, true, false, ◌==◌, [], ◌∷◌, ltb, join, strip, splitlines, split_once, insert,
  isdigit, decimal, matches, ok, if◌then◌else◌,
}
use zygveil.SafeRead.{regular, Stat, Target, private_mode, read_private_file}
use zygveil.Adb.Process.{
  CommandResult, Shell, read_pid, read_start_ticks, system_server_process_identity,
}
use zygveil.LiveControl.Properties.{parse_properties}
use zygveil.LiveControl.Status.{
  read_fields, is_uuid, numbers, error_envelope, check_size, check_integers, check_tokens,
  check_reason, check_boot_id, check_wire, check_identity, check_transition,
}
use zygveil.LiveControl.Generations.{
  applied_demand, check_generations, check_schema, check_status, parse_status,
  require_expected_control,
}
use zygveil.LiveControl.Input.{
  Live, live_text, is_canonical, is_outside, fraction, validate_decimal, read_live, check_live,
  parse_live, validate_live_input,
}
use zygveil.LiveControl.Input.Bounds.{IsLive, validate_live_input_sound}
use zygveil.LiveControl.Input.RoundTrip.{validate_live_input_again}
use zygveil.LiveControl.Update.{check_unchanged, check_accepted, check_rejected, judge_update}
use zygveil.LiveControl.Session.{
  Build, Device, helper, check_build, check_module, check_helper, device_digest, read_status,
  read_boot_id, check_bound, check_ready, require_identity, observe, live_set,
}
use zygveil.LiveControl.Session.Bound.{IsUpdated, live_set_sound}

abbrev status_text : String → String
status_text generation =
    join
      "schema_version=1\nmodule_state=active\nruntime_state=active\ncontrol_state=applied\nreason=none\nraw_gnss_mode=blocked\nboot_config_generation=3\npersisted_generation="
      (join generation (
        join "\npublished_generation=" (
          join generation (
            join "\napplied_generation=" (
              join generation
                "\nsystem_server_pid=1234\nsystem_server_start_ticks=567\nboot_id=01234567-89ab-cdef-0123-456789abcdef\n")))))

abbrev helper_digest : String
helper_digest = "aaaaaaaaaaaaaaaaaaaaaaaaaaaaaaaaaaaaaaaaaaaaaaaaaaaaaaaaaaaaaaaa"

abbrev old_digest : String
old_digest = "bbbbbbbbbbbbbbbbbbbbbbbbbbbbbbbbbbbbbbbbbbbbbbbbbbbbbbbbbbbbbbbb"

abbrev new_digest : String
new_digest = "cccccccccccccccccccccccccccccccccccccccccccccccccccccccccccccccc"

abbrev printed : String → CommandResult
printed text = record { returncode = 0; stdout = text }

-- Before the eleventh command the old configuration is in force.
abbrev answer : Shell
answer n (command ∷ arg ∷ []) =
    if command == "pidof"
    then printed "1234\n"
    else if command == "sha256sum"
    then printed (
        join (if arg == helper then helper_digest else if ltb n 11 then old_digest else new_digest)
          "  x\n")
    else if command == helper
    then printed (status_text (if ltb n 11 then "4" else "5"))
    else if arg == "/proc/sys/kernel/random/boot_id"
    then printed "01234567-89ab-cdef-0123-456789abcdef\n"
    else printed "1234 (system_server) S 1 2 3 4 5 6 7 8 9 10 11 12 13 14 15 16 17 18 567 20\n"
answer n (command ∷ flag ∷ format ∷ path ∷ []) =
    printed (if format == "%F:%a:%u:%g" then "directory:755:0:0\n" else "regular file:755:0:0:1\n")
answer n _ = record { returncode = 1; stdout = "" }

abbrev device : Device
device = record { shell = answer; apply = λ text. printed (status_text "5") }

abbrev build : Build
build = record { poc = false; expected_helper = helper_digest }

abbrev live_file : String
live_file =
    "schema_version = 1\ncenter_latitude_deg=60.5\ncenter_longitude_deg=-24.25\n\naltitude_ellipsoid_m=35\naltitude_msl_m=5.125\n"

abbrev live_values : Live
live_values = record { latitude = "60.5"; longitude = "-24.25"; ellipsoid = "35"; msl = "5.125" }

live_accepted : validate_live_input live_file ≡ ok (live_text live_values)
unfolding validate_live_input parse_live parse_properties read_live check_live validate_decimal
    is_canonical is_outside fraction live_text splitlines strip insert
live_accepted = refl

validate_live_input_sound_example : (l : Live) × (live_text live_values ≡ live_text l) × IsLive l
validate_live_input_sound_example =
    validate_live_input_sound live_file (live_text live_values) live_accepted

abbrev live_stat : Stat
live_stat = record {
  dev = 1;
  ino = 2;
  kind = regular;
  perm = private_mode;
  uid = 1000;
  nlink = 1;
  size = 118;
  mtime_ns = 9;
}

abbrev target : Target
target = record {
  resolves = true;
  below_state = true;
  is_symlink = false;
  opens = true;
  reading = record { before = live_stat; blocks = live_file ∷ []; after = live_stat };
}

updated : live_set build "" 1000 target device ≡ ok tt
unfolding live_set read_private_file observe require_identity check_build check_module check_helper
    device_digest read_status read_boot_id check_bound check_ready system_server_process_identity
    read_pid read_start_ticks judge_update check_unchanged check_accepted check_rejected
    require_expected_control parse_status check_size check_schema read_fields check_status
    check_integers check_tokens check_reason check_boot_id check_wire numbers check_identity
    check_transition error_envelope check_generations applied_demand parse_properties splitlines
    strip split_once insert isdigit is_uuid matches decimal validate_live_input parse_live read_live
    check_live validate_decimal is_canonical is_outside fraction live_text
updated = refl

live_set_sound_example : IsUpdated build "" device
live_set_sound_example = live_set_sound build "" 1000 target device updated

validate_live_input_again_example :
    validate_live_input (live_text live_values) ≡ ok (live_text live_values)
validate_live_input_again_example =
    validate_live_input_again live_file (live_text live_values) live_accepted
