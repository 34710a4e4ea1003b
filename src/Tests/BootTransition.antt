-- ===== src/Tests/BootTransition.antt =====
-- The theorems about a reboot, at a device that does not reboot and at one that does.
use zygveil.Base.{
  String, ◌≡◌, ◌≢◌, refl, Bool, true, ◌==◌, eq_iff, [], ◌∷◌, Result, ok, err, if◌then◌else◌, lookup,
  is_sha256,
}
use zygveil.Adb.Process.{
  CommandResult, Shell, system_server_process_identity, read_pid, read_start_ticks,
}
use zygveil.RebootIntent.Disk.{reject_conflicting_intents, fstat}
use zygveil.RebootIntent.Store.{
  load_intent, begin_or_resume, write_intent, judge, canonical, parse_intent,
}
use zygveil.BootConfig.State.{ModuleState}
use zygveil.BootTransition.{
  BootWait, answered, current_boot_id_sha256, select_root_adbd, system_server_identity,
  wait_for_boot, poll_boot, root_after_boot, wait_for_new_boot, sees_new_boot, is_new_boot,
  verify_system_server_stability, process_identity_samples_stable,
}
use zygveil.BootTransition.Reboot.{
  Answers, reboot_path, reboot_device, prepare, check_source_state, validate_reboot, send_reboot,
}
use zygveil.BootTransition.Reboot.Once.{reboot_device_once}
use zygveil.BootTransition.Reboot.Validated.{IsAllowed, IsValidated, reboot_device_sound}
use zygveil.Tests.RebootIntent.{portions, quiet, quiet-IsFaithful, temporary, bare}
use zygveil.RebootIntent.Document.{
  validate_intent, is_intent, new_intent, is_name, is_state_name, is_context, is_counter,
}
use zygveil.SafeRead.{read_checked}
use zygveil.Json.Load.{loads, value}
use zygveil.Json.{entries}

abbrev pub printed : String → CommandResult
printed text = record { returncode = 0; stdout = text }

abbrev pub answer : Shell
answer n (command ∷ arg ∷ []) =
    if command == "pidof"
    then printed "1234\n"
    else if arg == "/proc/1234/maps"
    then printed "7f00 /data/adb/modules/zygveil/libzygveil.so\n"
    else printed "1234 (system_server) S 1 2 3 4 5 6 7 8 9 10 11 12 13 14 15 16 17 18 567 20\n"
answer n _ = record { returncode = 1; stdout = "" }

abbrev pub first_id : String
first_id = "01234567-89ab-cdef-0123-456789abcdef\n"

abbrev pub second_id : String
second_id = "fedcba98-89ab-cdef-0123-456789abcdef\n"

abbrev pub digest : String → String
digest s =
    if s == "01234567-89ab-cdef-0123-456789abcdef"
    then "aaaaaaaaaaaaaaaaaaaaaaaaaaaaaaaaaaaaaaaaaaaaaaaaaaaaaaaaaaaaaaaa"
    else "bbbbbbbbbbbbbbbbbbbbbbbbbbbbbbbbbbbbbbbbbbbbbbbbbbbbbbbbbbbbbbbb"

abbrev pub booted : BootWait
booted = record {
  available = 0;
  rounds = (printed "1\n", printed "running\n") ∷ (printed "1\n", printed "stopped\n") ∷ [];
  identity = printed "uid=0(root) gid=0(root)\n";
  root = 0;
  available_again = 0;
  identity_again = printed "";
}

abbrev pub sample : Result (String × String × Bool)
sample = ok ("99", "88", true)

-- A device that reboots into the expected state.
abbrev good : Answers
good = record {
  selected = ok tt;
  identity = printed "uid=0(root) gid=0(root)\n";
  resumed_boot = booted;
  shell = answer;
  boot_id = printed first_id;
  before = ok ModuleState.pending_reboot_enabled;
  reboot_exit = 0;
  rounds = answered (printed first_id) ∷ answered (printed second_id) ∷ [];
  after = booted;
  confirmed = printed second_id;
  samples = sample ∷ sample ∷ sample ∷ [];
  found = ok (ModuleState.active, true);
  final_boot_id = printed second_id;
}

-- One that refuses to.
abbrev bad : Answers
bad = record good { reboot_exit = 1 }

sent : (reboot_device digest quiet "active" temporary bad bare).rebooted ≡ true
unfolding reboot_device prepare load_intent reject_conflicting_intents lookup select_root_adbd
    system_server_identity system_server_process_identity read_pid read_start_ticks
    current_boot_id_sha256 check_source_state begin_or_resume validate_intent is_intent new_intent
    is_name is_state_name is_context is_sha256 is_counter write_intent judge validate_reboot
    send_reboot
sent = refl

failed :
    (reboot_device digest quiet "active" temporary bad bare).result
    ≡ err "ADB reboot command failed"
unfolding reboot_device prepare load_intent reject_conflicting_intents lookup select_root_adbd
    system_server_identity system_server_process_identity read_pid read_start_ticks
    current_boot_id_sha256 check_source_state begin_or_resume validate_intent is_intent new_intent
    is_name is_state_name is_context is_sha256 is_counter write_intent judge validate_reboot
    send_reboot
failed = refl

again :
    (reboot_device digest quiet "active" temporary bad
      (reboot_device digest quiet "active" temporary bad bare).disk).rebooted
    ≡ true
unfolding reboot_device prepare load_intent reject_conflicting_intents lookup select_root_adbd
    system_server_identity system_server_process_identity read_pid read_start_ticks
    current_boot_id_sha256 check_source_state begin_or_resume validate_intent is_intent new_intent
    is_name is_state_name is_context is_sha256 is_counter write_intent judge validate_reboot
    send_reboot read_checked fstat canonical portions parse_intent loads value entries wait_for_boot
    poll_boot root_after_boot
again = refl

apart : temporary.name ≢ reboot_path
apart p = cc ((eq_iff temporary.name reboot_path).1 p)

reboot_device_once_example :
    current_boot_id_sha256 digest bad.boot_id ≡ current_boot_id_sha256 digest bad.boot_id
reboot_device_once_example =
    reboot_device_once digest quiet "active" temporary temporary bad bad bare
      "ADB reboot command failed" quiet-IsFaithful (λ e. refl) apart sent failed again

validated : (reboot_device digest quiet "active" temporary good bare).result ≡ ok tt
unfolding reboot_device prepare load_intent reject_conflicting_intents lookup select_root_adbd
    system_server_identity system_server_process_identity read_pid read_start_ticks
    current_boot_id_sha256 check_source_state begin_or_resume validate_intent is_intent new_intent
    is_name is_state_name is_context is_sha256 is_counter write_intent judge validate_reboot
    send_reboot wait_for_new_boot sees_new_boot is_new_boot wait_for_boot poll_boot root_after_boot
    verify_system_server_stability process_identity_samples_stable
validated = refl

reboot_device_sound_example :
    ((reboot_device digest quiet "active" temporary good bare).rebooted ≡ true
      → IsAllowed "active" good)
    × ((reboot_device digest quiet "active" temporary good bare).result ≡ ok tt
        → IsValidated digest quiet "active" good bare
            (reboot_device digest quiet "active" temporary good bare))
reboot_device_sound_example = reboot_device_sound digest quiet "active" temporary good bare
