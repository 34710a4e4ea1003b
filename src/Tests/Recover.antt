-- ===== src/Tests/Recover.antt =====
-- The theorems about a recovery, at a device that recovers.
use zygveil.Base.{
  ◌≡◌, refl, true, false, [], ◌∷◌, ok, lookup, is_sha256, insert, all_chars, count_chars, decimal,
  decimal_from, is_space, isdigit, join, lstrip, matches, matches_from, rstrip, strip, after_last,
  drop_char, word_and_rest, words,
}
use zygveil.SafeRead.{is_private, read_all, read_checked, same_stat}
use zygveil.RebootIntent.Disk.{
  inspect_directory, reject_conflicting_intents, check_folder, create_directory, ends_with, replace,
  secure_folder, unlink, update_file, without,
}
use zygveil.RebootIntent.Store.{
  load_intent, begin_or_resume, write_intent, judge, canonical, clear_intent, decode, effect,
  is_resumed, parse_intent, run,
}
use zygveil.BootConfig.State.{ModuleState}
use zygveil.BootTransition.{
  answered, current_boot_id_sha256, system_server_identity, wait_for_new_boot, sees_new_boot,
  is_new_boot, wait_for_boot, poll_boot, root_after_boot, verify_system_server_stability,
  process_identity_samples_stable,
}
use zygveil.BootTransition.Recover.{
  RecoveryAnswers, recover, prepare_recovery, select_recovery_adbd, disable_module,
  recovery_identity, validate_recovery, send_recovery,
}
use zygveil.BootTransition.Recover.Sound.{IsRecovered, recover_sound}
use zygveil.Tests.RebootIntent.{quiet, temporary, bare}
use zygveil.Tests.BootTransition.{printed, answer, first_id, second_id, digest, booted, sample}
use zygveil.RebootIntent.Document.{
  validate_intent, is_intent, new_intent, is_name, is_state_name, is_context, is_counter,
}
use zygveil.Adb.Process.{system_server_process_identity, read_pid, read_start_ticks, stat_fields}
use zygveil.Json.Load.{continue_with, elements, loads, members, unless_closed, value, value_by}
use zygveil.Json.Parse.{expect, number, put_field, skip, span_number, text_from, word}
use zygveil.Json.Print.{braced, dumps, escape, escaped, more_members, quoted, show, sort_keys}
use zygveil.Json.{entries, fields}
use zygveil.LiveControl.Status.{is_uuid, uuid_from}

abbrev answers : RecoveryAnswers
answers = record {
  adbd = record {
    selected = ok tt;
    identity = printed "uid=2000(shell) gid=2000(shell)\n";
    root = 0;
    available = 0;
    identity_again = printed "uid=0(root) gid=0(root)\n";
  };
  resumed_boot = booted;
  shell = answer;
  boot_id = printed first_id;
  live = record { payload = true; touch_exit = 0; marked = true };
  staged = record { payload = false; touch_exit = 0; marked = false };
  reboot_exit = 0;
  rounds = answered (printed first_id) ∷ answered (printed second_id) ∷ [];
  after = booted;
  confirmed = printed second_id;
  samples = sample ∷ sample ∷ sample ∷ [];
  recovered = ok (ModuleState.disabled, false);
  final_boot_id = printed second_id;
}

returned : (recover digest quiet temporary answers bare).result ≡ ok tt
unfolding recover prepare_recovery load_intent reject_conflicting_intents lookup
    select_recovery_adbd current_boot_id_sha256 disable_module begin_or_resume validate_intent
    is_intent new_intent is_name is_state_name is_context is_sha256 recovery_identity
    system_server_identity system_server_process_identity read_pid read_start_ticks is_counter
    write_intent judge validate_recovery send_recovery wait_for_new_boot sees_new_boot is_new_boot
    wait_for_boot poll_boot root_after_boot verify_system_server_stability
    process_identity_samples_stable stat_fields insert all_chars count_chars decimal decimal_from
    is_space isdigit join lstrip matches matches_from rstrip strip after_last drop_char
    word_and_rest words continue_with elements loads members unless_closed value value_by expect
    number put_field skip span_number text_from word braced dumps escape escaped more_members quoted
    show sort_keys entries fields is_uuid uuid_from check_folder create_directory ends_with
    inspect_directory replace secure_folder unlink update_file without canonical clear_intent decode
    effect is_resumed parse_intent run is_private read_all read_checked same_stat
returned = refl

recover_sound_example :
    IsRecovered digest quiet answers bare (recover digest quiet temporary answers bare)
recover_sound_example = recover_sound digest quiet temporary answers bare returned
