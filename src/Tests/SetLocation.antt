-- ===== src/Tests/SetLocation.antt =====
-- The theorem about the installed configuration, at a request that changes it.
use zygveil.Base.{
  String, ◌≡◌, refl, true, false, Option, none, some, [], ◌∷◌, Result, ok, err, all_chars,
  splitlines, integer, insert, item, lookup, read_digits, signed, insert_by, sort_by, count_chars,
  is_line_end, is_space, join, lines_after, lstrip, rstrip, split_once, strip, starts_with,
}
use zygveil.SafeRead.{
  regular, Stat, Target, private_mode, read_config_bytes, is_private, read_all, read_checked,
  read_target, same_stat,
}
use zygveil.BootConfig.State.{ModuleState}
use zygveil.BootConfig.Installed.{
  SetAnswers, set_location, check_settable, check_installed, same_dict,
}
use zygveil.BootConfig.Installed.Config.{IsLocationSet, set_location_sound}
use zygveil.Tests.BootConfig.{floats, config, next}
use zygveil.BootConfig.Config.{
  read_private_config, validate_boot_input, validate_config, check_header, completed, parse_floats,
  check_position, check_motion, check_integers_of, resolve_boot_config, same_input, check_each,
  config_integer, render_config, rendered,
}
use zygveil.BootConfig.{read_properties, mismatch, put_line, put_lines, put_property, shown_set}
use zygveil.Json.Print.{show}

abbrev file : String
file =
    "schema_version=1\nraw_gnss_mode=blocked\ncenter_latitude_deg=11\ncenter_longitude_deg=-20\naltitude_ellipsoid_m=30\naltitude_msl_m=10\nhorizontal_jitter_sigma_m=2\nhorizontal_jitter_radius_m=5\nhorizontal_correlation_time_s=30\nvertical_jitter_sigma_m=3\naccuracy_correlation_time_s=60\nspeed_deadband_mps=1\nspeed_max_mps=3\nbearing_min_speed_mps=2\nrandom_seed=7\n"

abbrev stat : Stat
stat = record {
  dev = 1;
  ino = 2;
  kind = regular;
  perm = private_mode;
  uid = 1000;
  nlink = 1;
  size = 351;
  mtime_ns = 9;
}

abbrev target : Target
target = record {
  resolves = true;
  below_state = true;
  is_symlink = false;
  opens = true;
  reading = record { before = stat; blocks = file ∷ []; after = stat };
}

abbrev stored : Option String → Result String
stored none = err "nothing was written"
stored (some text) = ok text

abbrev answers : SetAnswers
answers = record {
  selected = ok tt;
  current = ok (record {
    state = ModuleState.disabled;
    runtime_attested = false;
    live_installed = true;
    staged_installed = false;
    config = config "10" "4";
  });
  write = λ text. ok tt;
  read_back = stored;
}

was_set : set_location floats 1000 target answers ≡ ok (next, true)
unfolding set_location read_private_config read_config_bytes all_chars read_properties splitlines
    validate_boot_input validate_config check_header completed parse_floats integer check_position
    check_motion check_integers_of check_settable resolve_boot_config same_input insert item lookup
    read_digits signed insert_by sort_by count_chars is_line_end is_space join lines_after lstrip
    rstrip split_once strip starts_with check_each config_integer render_config rendered
    check_installed same_dict mismatch put_line put_lines put_property shown_set show is_private
    read_all read_checked read_target same_stat
was_set = refl

set_location_sound_example : IsLocationSet floats 1000 target answers next true
set_location_sound_example = set_location_sound floats 1000 target answers next true was_set
