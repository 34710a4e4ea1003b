-- ===== src/BootConfig/State.antt =====
-- The state that `inspect_module` of tools/automation/location_device.py finds in an installed module,
-- without the lines that go into the report. What the device's files hold and what its commands answer
-- is the parameter Evidence.
pub mod Active
use zygveil.Base.{
  ℕ, ◌/◌, ◌%◌, ◌+◌, ◌-◌, ◌*◌, String, Bool, true, false, not, ◌&&◌, ◌||◌, ◌==◌, Option, none, some,
  List, [], ◌∷◌, Dict, all, contains, lookup, is_text, is_sha256, in_range, isdigit, decimal, eqb,
  ltb, leb, strip, lstrip, drop_char, words, starts_with, Result, ok, err, ◌>>=◌, ◌>>◌, reject,
  if◌then◌else◌,
}
use Prim.Native.Char.{code}
use zygveil.Adb.Process.{CommandResult, stat_fields, field_at}
use zygveil.LiveControl.Status.{Status}
use zygveil.LiveControl.Generations.{parse_status}
use zygveil.LiveControl.Session.{prints}
use zygveil.BootConfig.{read_properties}
use zygveil.BootConfig.Config.{Floats, validate_config}
use zygveil.BootConfig.Runtime.{Runtime, validate_runtime_status}
use zygveil.BootConfig.Control.{Control, process_start_ticks, inspect_live_control}

-- What `inspect_module` sees of an installed module and of the running system.
pub record Evidence : Type 0 where
  pub live_installed : Bool
  pub staged_installed : Bool
  pub native_mapped : Bool
  pub disabled : Bool
  pub remove_pending : Bool
  pub pid : String
  pub start_ticks : String
  pub boot_id : String
  pub config_text : String
  pub runtime_text : String
  pub guard_text : String
  -- `cat /proc/<owner>/stat`, of the owner that the runtime status names
  pub owner_stat : CommandResult
  pub expected_helpers : List String
  pub control : Control

unfoldable pub runtime_attested : Runtime → Evidence → Bool
unfolding isdigit decimal process_start_ticks strip
runtime_attested r e =
    r.pid == e.pid
    && r.start_ticks == e.start_ticks
    && r.boot_id == strip e.boot_id
    && isdigit r.generation
    && ltb 0 (decimal r.generation)
    && isdigit r.control_fd
    && isdigit r.owner_pid
    && ltb 0 (decimal r.owner_pid)
    && isdigit r.owner_ticks
    && ltb 0 (decimal r.owner_ticks)
    && process_start_ticks e.owner_stat == r.owner_ticks

unfoldable pub runtime_ready : Runtime → Dict String → Dict String → Bool
unfolding lookup decimal
runtime_ready r config guard =
    is_text (lookup "state" guard) "valid"
    && r.state == "ready"
    && r.hook_count == "5"
    && leb 3 (decimal r.control_fd)
    && is_text (lookup "raw_gnss_mode" config) r.raw_gnss_mode

-- What has been found out before the state is named.
pub record Findings : Type 0 where
  pub config_valid : Bool
  pub waiting : Bool
  pub guard_valid : Bool
  pub attested : Bool
  pub settled : Bool
  pub ready : Bool
  pub control_attested : Bool

-- The names that a state can have.
pub data ModuleState : Type 0 where
  staged_pending_reboot_disabled staged_pending_reboot_enabled invalid_staged_payload remove_pending
        pending_reboot_disabled disabled invalid_config waiting active active_control_failure
        inactive_failure pending_reboot_enabled absent :
      ModuleState

abbrev pub state_text : ModuleState → String
state_text ModuleState.staged_pending_reboot_disabled = "staged_pending_reboot_disabled"
state_text ModuleState.staged_pending_reboot_enabled = "staged_pending_reboot_enabled"
state_text ModuleState.invalid_staged_payload = "invalid_staged_payload"
state_text ModuleState.remove_pending = "remove_pending"
state_text ModuleState.pending_reboot_disabled = "pending_reboot_disabled"
state_text ModuleState.disabled = "disabled"
state_text ModuleState.invalid_config = "invalid_config"
state_text ModuleState.waiting = "waiting"
state_text ModuleState.active = "active"
state_text ModuleState.active_control_failure = "active_control_failure"
state_text ModuleState.inactive_failure = "inactive_failure"
state_text ModuleState.pending_reboot_enabled = "pending_reboot_enabled"
state_text ModuleState.absent = "absent"

unfoldable pub state_name : Evidence → Findings → ModuleState
state_name e f =
    if e.staged_installed
    then (if e.disabled && f.config_valid && f.guard_valid
        then ModuleState.staged_pending_reboot_disabled
        else if f.config_valid && f.guard_valid
        then ModuleState.staged_pending_reboot_enabled
        else ModuleState.invalid_staged_payload)
    else if e.remove_pending
    then ModuleState.remove_pending
    else if e.disabled && (f.attested || e.native_mapped)
    then ModuleState.pending_reboot_disabled
    else if e.disabled
    then ModuleState.disabled
    else if not f.config_valid
    then ModuleState.invalid_config
    else if f.ready && f.control_attested && f.waiting
    then ModuleState.waiting
    else if f.ready && f.control_attested
    then ModuleState.active
    else if f.ready
    then ModuleState.active_control_failure
    else if f.attested && f.settled
    then ModuleState.inactive_failure
    else ModuleState.pending_reboot_enabled

abbrev pub is_settled : Runtime → Bool
is_settled r = r.state == "ready" || r.state == "inactive"

abbrev nothing_attested : Bool → Bool → Findings
nothing_attested config_valid guard_valid = record {
  config_valid = config_valid;
  waiting = false;
  guard_valid = guard_valid;
  attested = false;
  settled = false;
  ready = false;
  control_attested = false;
}

-- The findings of a valid configuration and a valid runtime status; without both of them nothing is
-- attested.
unfoldable pub findings : Evidence → Result (Dict String) → Result Runtime → Dict String → Findings
unfolding lookup strip
findings e (ok config) (ok r) guard =
    let attested = runtime_attested r e in
    let ready = attested && runtime_ready r config guard in
    record {
      config_valid = true;
      waiting = is_text (lookup "enabled" config) "false";
      guard_valid = is_text (lookup "state" guard) "valid";
      attested = attested;
      settled = is_settled r;
      ready = ready;
      control_attested =
          e.live_installed
          && not e.staged_installed
          && ready
          && inspect_live_control config r e.pid (strip e.boot_id) e.expected_helpers e.control;
    }
findings e (ok config) (err _) guard =
    nothing_attested true (is_text (lookup "state" guard) "valid")
findings e (err _) _ guard = nothing_attested false (is_text (lookup "state" guard) "valid")

module _ (floats : Floats) where
  unfoldable pub load_config : String → Result (Dict String)
  load_config text = do config ← read_properties true text; validate_config floats config; ok config

  -- The state of a module that is installed.
  unfoldable pub inspect_module : Evidence → Result ModuleState
  inspect_module e = do
    guard ← read_properties false e.guard_text
    ok (
        state_name e (
          findings e (load_config e.config_text)
            (read_properties false e.runtime_text >>= λ values. validate_runtime_status values)
            guard))
