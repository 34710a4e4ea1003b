-- ===== src/LiveControl/Update.antt =====
-- The verdict of `live_set` in tools/automation/location_live_control.py: what is compared of the
-- status before the update, the helper's response and the status after it.
pub mod Growth
use zygveil.Base.{
  ℕ, String, Bool, true, false, not, ◌&&◌, ◌||◌, ◌==◌, some, contains, decimal, leb, Result, ok,
  ◌>>=◌, ◌>>◌, reject, if◌then◌else◌,
}
use zygveil.LiveControl.Status.{Status}
use zygveil.LiveControl.Generations.{accepted_states, require_expected_control}

-- What `live_set` has read when it starts to compare. With `poc` no digest is read.
pub record Observed : Type 0 where
  pub poc : Bool
  pub before : Status
  pub before_start_ticks : String
  pub before_config_digest : String
  pub returncode : ℕ
  pub response : Status
  pub after : Status
  pub after_start_ticks : String
  pub after_config_digest : String

unfoldable pub check_unchanged : Observed → Result (Unit {0})
check_unchanged o =
    reject
      (not (before.raw_gnss_mode == after.raw_gnss_mode)
        || not (before.module_state == after.module_state)
        || not (before.system_server_pid == after.system_server_pid)
        || not (before.system_server_start_ticks == after.system_server_start_ticks)
        || not (o.before_start_ticks == o.after_start_ticks)
        || not (response.system_server_pid == after.system_server_pid)
        || not (response.system_server_start_ticks == after.system_server_start_ticks)
        || not (response.boot_id == after.boot_id))
      "live update changed a boot-only state or system_server identity"
  where
    open o use {before, response, after}

unfoldable pub check_accepted : Observed → Result (Unit {0})
check_accepted o =
    reject
      (contains accepted_states response.control_state
        && (not o.poc && o.before_config_digest == o.after_config_digest
            || not (response.persisted_generation == after.persisted_generation)
            || leb (decimal after.persisted_generation) (decimal before.persisted_generation)))
      "accepted live update did not persist exactly one current generation"
  where
    open o use {before, response, after}

unfoldable pub check_rejected : Observed → Result (Unit {0})
check_rejected o =
    reject
      (response.control_state == "rejected"
        && (not o.poc && not (o.before_config_digest == o.after_config_digest)
            || not (before.persisted_generation == after.persisted_generation)
            || not (before.applied_generation == after.applied_generation)))
      "rejected live update changed the last valid persisted/applied generation"
  where
    open o use {before, response, after}

-- `args.expected_control_state or "accepted"`
abbrev pub expectation : String → String
expectation given = if given == "" then "accepted" else given

unfoldable pub judge_update : Observed → String → Result (Unit {0})
judge_update o expected = do
  check_unchanged o
  check_accepted o
  check_rejected o
  require_expected_control o.response (expectation expected) (some o.returncode)
