-- ===== src/BootTransition/Reboot.antt =====
-- `reboot_device` of tools/automation/location_device.py: a reboot that is remembered on the host until
-- it has been validated. It runs under the lock of RebootIntent.Lock.
pub mod Once
pub mod Validated
use zygveil.Base.{
  ℕ, String, Bool, true, false, not, ◌&&◌, ◌||◌, ◌==◌, Option, none, some, List, [], ◌∷◌, Dict,
  lookup, contains, eqb, join, Result, ok, err, ◌>>=◌, ◌>>◌, reject, if◌then◌else◌,
}
use zygveil.Json.{Json, as_str}
use zygveil.Adb.Process.{CommandResult, Shell}
use zygveil.RebootIntent.Document.{Request, Identity}
use zygveil.RebootIntent.Disk.{Disk}
use zygveil.RebootIntent.Store.{
  Observer, Fresh, load_intent, is_resumed, field_is, begin_or_resume, clear_intent,
}
use zygveil.BootConfig.State.{ModuleState, state_text}
use zygveil.BootTransition.{
  BootWait, Round, select_root_adbd, current_boot_id_sha256, system_server_identity, wait_for_boot,
  wait_for_new_boot, verify_system_server_stability,
}

-- `REBOOT_SOURCE_STATES[expected]`
abbrev pub source_states : String → List String
source_states expected =
    if expected == "active" || expected == "waiting"
    then expected ∷ "pending_reboot_enabled" ∷ "staged_pending_reboot_enabled" ∷ []
    else if expected == "disabled"
    then "disabled" ∷ "pending_reboot_disabled" ∷ "staged_pending_reboot_disabled" ∷ []
    else if expected == "absent"
    then "remove_pending" ∷ []
    else if expected == "any"
    then "active" ∷ "waiting" ∷ "disabled" ∷ "pending_reboot_disabled" ∷ "pending_reboot_enabled"
      ∷ "staged_pending_reboot_enabled" ∷ "staged_pending_reboot_disabled" ∷ []
    else []

-- The file of `intent_path("location-reboot")`, in the directory of the intents.
abbrev pub reboot_path : String
reboot_path = "location-reboot.json"

abbrev pub request : String → Request
request expected = record {
  operation = "location-reboot";
  expected_state = expected;
  context_id = "location";
}

-- What the device answers, in the order of the questions. `before` and `found` are what
-- `inspect_module` returns before and after, `found` with whether the module is mapped.
pub record Answers : Type 0 where
  pub selected : Result (Unit {0})
  pub identity : CommandResult
  pub resumed_boot : BootWait
  pub shell : Shell
  pub boot_id : CommandResult
  pub before : Result ModuleState
  pub reboot_exit : ℕ
  pub rounds : List Round
  pub after : BootWait
  pub confirmed : CommandResult
  pub samples : List (Result (String × String × Bool))
  pub found : Result (ModuleState × Bool)
  pub final_boot_id : CommandResult

-- What is left: the disk, whether the reboot command was sent, and what is returned or raised.
pub record Outcome : Type 0 where
  pub disk : Disk
  pub rebooted : Bool
  pub result : Result (Unit {0})

abbrev pub is_some : Option (Dict Json) → Bool
is_some none = false
is_some (some v) = true

-- `pending is not None and pending["source_boot_id_sha256"] != current_boot_digest`
abbrev pub is_other_boot : Option (Dict Json) → String → Bool
is_other_boot none digest = false
is_other_boot (some v) digest = not (field_is "source_boot_id_sha256" v digest)

unfoldable pub check_source_state :
    String → Option (Dict Json) → String → Result ModuleState → Result (Unit {0})
unfolding lookup join
check_source_state expected pending digest before =
    if is_other_boot pending digest then ok tt else do
      state ← before
      reject (not (contains (source_states expected) (state_text state))) (
          join "location reboot source state cannot reach "
            (join expected (join ": " (state_text state))))

abbrev pub source_boot : Dict Json → String
source_boot v = elim (as_str (lookup "source_boot_id_sha256" v)) [ none ↦ "" | some s ↦ s ]

abbrev pub cleared : Disk → Bool → Result (Unit {0}) → Outcome
cleared d resumed (ok _) = record {
  disk = clear_intent reboot_path d;
  rebooted = not resumed;
  result = ok tt;
}
cleared d resumed (err e) = record { disk = d; rebooted = not resumed; result = err e }

module _ (sha256 : String → String) (observe : Observer) (expected : String) where
  -- Up to `begin_or_resume`: the intent, whether it is resumed, and the disk.
  unfoldable pub prepare : Fresh → Answers → Disk → Result (Dict Json × Bool × Disk)
  prepare t a d = do
    pending ← load_intent observe (request expected) reboot_path d
    select_root_adbd a.selected a.identity
    if is_some pending then wait_for_boot a.resumed_boot else ok tt
    (pid, start_ticks, _) ← system_server_identity a.shell
    digest ← current_boot_id_sha256 sha256 a.boot_id
    check_source_state expected pending digest a.before
    begin_or_resume observe t (request expected)
        (record { boot_id_sha256 = digest; pid = pid; start_ticks = start_ticks }) reboot_path d

  unfoldable pub send_reboot : Answers → Dict Json → Bool → Result (Unit {0})
  unfolding lookup
  send_reboot a v resumed = if resumed then ok tt else do
    reject (not (eqb a.reboot_exit 0)) "ADB reboot command failed"
    wait_for_new_boot sha256 (source_boot v) a.rounds a.after a.confirmed

  -- From `begin_or_resume` on, up to `clear_intent`.
  unfoldable pub validate_reboot : Answers → Dict Json → Bool → Result (Unit {0})
  unfolding lookup join
  validate_reboot a v resumed = do
    send_reboot a v resumed
    verify_system_server_stability a.samples
    (state, native_mapped) ← a.found
    digest ← current_boot_id_sha256 sha256 a.final_boot_id
    reject (field_is "source_boot_id_sha256" v digest)
        "location reboot did not enter a new kernel boot"
    reject (not (expected == "any") && not (state_text state == expected)) (
        join "post-reboot state mismatch: expected "
          (join expected (join ", got " (state_text state))))
    reject (expected == "absent" && native_mapped)
        "post-uninstall reboot retained the location native runtime"

  abbrev pub carried_out : Answers → Disk → Result (Dict Json × Bool × Disk) → Outcome
  carried_out a d (err e) = record { disk = d; rebooted = false; result = err e }
  carried_out a d (ok (v, resumed, d')) = cleared d' resumed (validate_reboot a v resumed)

  unfoldable pub reboot_device : Fresh → Answers → Disk → Outcome
  reboot_device t a d = carried_out a d (prepare t a d)
