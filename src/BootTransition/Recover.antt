-- ===== src/BootTransition/Recover.antt =====
-- `select_recovery_adbd`, `disable_module` and `recover` of tools/automation/location_device.py: the way
-- back to a module that is disabled. It runs under the lock of RebootIntent.Lock.
pub mod Sound
use zygveil.Base.{
  ℕ, String, Bool, true, false, not, ◌&&◌, ◌||◌, ◌==◌, Option, none, some, List, [], ◌∷◌, Dict,
  lookup, eqb, isdigit, Result, ok, err, ◌>>=◌, ◌>>◌, reject, if◌then◌else◌,
}
use zygveil.Json.{Json}
use zygveil.Adb.Process.{CommandResult, Shell}
use zygveil.RebootIntent.Document.{Request, Identity}
use zygveil.RebootIntent.Disk.{Disk}
use zygveil.RebootIntent.Store.{
  Observer, Fresh, load_intent, field_is, begin_or_resume, clear_intent,
}
use zygveil.BootConfig.State.{ModuleState, state_text}
use zygveil.BootTransition.{
  is_root, BootWait, Round, current_boot_id_sha256, system_server_identity, wait_for_boot,
  wait_for_new_boot, verify_system_server_stability,
}
use zygveil.BootTransition.Reboot.{Outcome, reboot_path, is_some, is_other_boot, source_boot}

-- The file of `intent_path("location-recover")`.
abbrev pub recovery_path : String
recovery_path = "location-recover.json"

abbrev pub recovery_request : Request
recovery_request = record {
  operation = "location-recover";
  expected_state = "disabled";
  context_id = "location";
}

-- What `Adb.select` and the commands of `select_recovery_adbd` answer.
pub record Adbd : Type 0 where
  pub selected : Result (Unit {0})
  pub identity : CommandResult
  pub root : ℕ
  pub available : ℕ
  pub identity_again : CommandResult

unfoldable pub select_recovery_adbd : Adbd → Result (Unit {0})
select_recovery_adbd a = do
  a.selected
  if is_root a.identity then ok tt else do
    reject (not (eqb a.root 0) || not (eqb a.available 0))
        "recovery could not restart rooted-debugging adbd"
    reject (not (is_root a.identity_again)) "recovery adbd is not uid 0 (no su fallback is used)"

-- One of the two directories of the module: whether there is a payload, what `touch` exits with, and
-- whether the marker is there then.
pub record Place : Type 0 where
  pub payload : Bool
  pub touch_exit : ℕ
  pub marked : Bool

abbrev pub mark_disabled : Place → Result (Unit {0})
mark_disabled p =
    reject (p.payload && (not (eqb p.touch_exit 0) || not p.marked))
      "could not create the location module disable marker"

unfoldable pub disable_module : Place → Place → Result (Unit {0})
disable_module live staged = do
  reject (not live.payload && not staged.payload) "location module is not installed"
  mark_disabled live
  mark_disabled staged

-- What the device answers, in the order of the questions. `recovered` is what `inspect_module` finds at
-- the end, with whether its runtime status is attested.
pub record RecoveryAnswers : Type 0 where
  pub adbd : Adbd
  pub resumed_boot : BootWait
  pub shell : Shell
  pub boot_id : CommandResult
  pub live : Place
  pub staged : Place
  pub reboot_exit : ℕ
  pub rounds : List Round
  pub after : BootWait
  pub confirmed : CommandResult
  pub samples : List (Result (String × String × Bool))
  pub recovered : Result (ModuleState × Bool)
  pub final_boot_id : CommandResult

-- `contextlib.suppress(CheckError)`, and "0" for what is no number.
abbrev pub counter_or_zero : String → String
counter_or_zero s = if isdigit s then s else "0"

unfoldable pub recovery_identity : String → Result (String × String × Bool) → Identity
unfolding isdigit
recovery_identity digest (ok (pid, start_ticks, _)) = record {
  boot_id_sha256 = digest;
  pid = counter_or_zero pid;
  start_ticks = counter_or_zero start_ticks;
}
recovery_identity digest (err _) = record { boot_id_sha256 = digest; pid = "0"; start_ticks = "0" }

abbrev pub forgotten : Disk → Bool → Result (Unit {0}) → Outcome
forgotten d resumed (ok _) = record {
  disk = clear_intent reboot_path (clear_intent recovery_path d);
  rebooted = not resumed;
  result = ok tt;
}
forgotten d resumed (err e) = record { disk = d; rebooted = not resumed; result = err e }

module _ (sha256 : String → String) (observe : Observer) where
  unfoldable pub prepare_recovery :
      Fresh → RecoveryAnswers → Disk → Result (Dict Json × Bool × Disk)
  prepare_recovery t a d = do
    pending ← load_intent observe recovery_request recovery_path d
    select_recovery_adbd a.adbd
    if is_some pending then wait_for_boot a.resumed_boot else ok tt
    digest ← current_boot_id_sha256 sha256 a.boot_id
    if is_other_boot pending digest then ok tt else disable_module a.live a.staged
    begin_or_resume observe t recovery_request
        (recovery_identity digest (system_server_identity a.shell)) recovery_path d

module _ (sha256 : String → String) where
  unfoldable pub send_recovery : RecoveryAnswers → Dict Json → Bool → Result (Unit {0})
  unfolding lookup
  send_recovery a v resumed = if resumed then ok tt else do
    reject (not (eqb a.reboot_exit 0)) "recovery reboot command failed"
    wait_for_new_boot sha256 (source_boot v) a.rounds a.after a.confirmed

  unfoldable pub validate_recovery : RecoveryAnswers → Dict Json → Bool → Result (Unit {0})
  unfolding lookup
  validate_recovery a v resumed = do
    send_recovery a v resumed
    verify_system_server_stability a.samples
    (state, runtime_attested) ← a.recovered
    reject (not (state_text state == "disabled") || runtime_attested)
        "recovery did not reach a fully disabled module state"
    digest ← current_boot_id_sha256 sha256 a.final_boot_id
    reject (field_is "source_boot_id_sha256" v digest)
        "location recovery did not enter a new kernel boot"

  abbrev pub recovered_by : RecoveryAnswers → Disk → Result (Dict Json × Bool × Disk) → Outcome
  recovered_by a d (err e) = record { disk = d; rebooted = false; result = err e }
  recovered_by a d (ok (v, resumed, d')) = forgotten d' resumed (validate_recovery a v resumed)

  unfoldable pub recover : Observer → Fresh → RecoveryAnswers → Disk → Outcome
  recover observe t a d = recovered_by a d (prepare_recovery sha256 observe t a d)
