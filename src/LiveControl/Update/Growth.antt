-- ===== src/LiveControl/Update/Growth.antt =====
-- What a passed `live_set` of tools/automation/location_live_control.py says of the device.
use zygveil.Base.{
  ◌<◌, String, ◌≡◌, ◌≢◌, true, false, ◌==◌, contains, decimal, ok, >>-eq-ok, eq_iff, arith,
}
use zygveil.LiveControl.Generations.{accepted_states}
use zygveil.LiveControl.Generations.Expected.{accepted_iff}
use zygveil.LiveControl.Update.{
  Observed, check_unchanged, check_accepted, check_rejected, judge_update,
}

-- The module's state, its Raw GNSS mode and the identity of system_server are as they were.
pub record IsUnchanged (o : Observed) : Type 0 where
  pub raw_gnss_mode : o.before.raw_gnss_mode ≡ o.after.raw_gnss_mode
  pub module_state : o.before.module_state ≡ o.after.module_state
  pub pid : o.before.system_server_pid ≡ o.after.system_server_pid
  pub start_ticks : o.before.system_server_start_ticks ≡ o.after.system_server_start_ticks
  pub process_ticks : o.before_start_ticks ≡ o.after_start_ticks
  pub answered_by : o.response.system_server_pid ≡ o.after.system_server_pid
  pub answered_in : o.response.boot_id ≡ o.after.boot_id

module _ (o : Observed) where
  check_unchanged-IsUnchanged : check_unchanged o ≡ ok tt → IsUnchanged o
  unfolding check_unchanged
  check_unchanged-IsUnchanged h = record {
    raw_gnss_mode = ground (arith, eq_iff o.before.raw_gnss_mode o.after.raw_gnss_mode);
    module_state = ground (arith, eq_iff o.before.module_state o.after.module_state);
    pid = ground (arith, eq_iff o.before.system_server_pid o.after.system_server_pid);
    start_ticks =
        ground (arith, eq_iff o.before.system_server_start_ticks o.after.system_server_start_ticks);
    process_ticks = ground (arith, eq_iff o.before_start_ticks o.after_start_ticks);
    answered_by = ground (arith, eq_iff o.response.system_server_pid o.after.system_server_pid);
    answered_in = ground (arith, eq_iff o.response.boot_id o.after.boot_id);
  }

  -- The generation on disk has grown, it is the one that the helper answered with, and unless the
  -- build is a proof of concept the configuration file differs.
  pub record HasGrown : Type 0 where
    pub grown : decimal o.before.persisted_generation < decimal o.after.persisted_generation
    pub answered : o.response.persisted_generation ≡ o.after.persisted_generation
    pub written : o.poc ≡ false → o.before_config_digest ≢ o.after_config_digest

  check_accepted-HasGrown :
      check_accepted o ≡ ok tt → contains accepted_states o.response.control_state ≡ true → HasGrown
  unfolding check_accepted
  check_accepted-HasGrown h a = record {
    grown = ground arith;
    answered = ground (arith, eq_iff o.response.persisted_generation o.after.persisted_generation);
    written = λ p. ground (arith, eq_iff o.before_config_digest o.after_config_digest);
  }

check_rejected-kept :
    (o : Observed)
    → check_rejected o ≡ ok tt
    → (o.response.control_state == "rejected") ≡ true
    → (o.before.persisted_generation ≡ o.after.persisted_generation)
      × (o.before.applied_generation ≡ o.after.applied_generation)
      × (o.poc ≡ false → o.before_config_digest ≡ o.after_config_digest)
unfolding check_rejected
check_rejected-kept o h state = (
  ground (arith, eq_iff o.before.persisted_generation o.after.persisted_generation),
  ground (arith, eq_iff o.before.applied_generation o.after.applied_generation),
  λ p. ground (arith, eq_iff o.before_config_digest o.after_config_digest),
)

pub judge_update-IsUnchanged :
    (o : Observed) (expected : String) → judge_update o expected ≡ ok tt → IsUnchanged o
unfolding judge_update
judge_update-IsUnchanged o expected h =
    check_unchanged-IsUnchanged o (>>-eq-ok (check_unchanged o) _ h).0

-- An update that passes the whole verdict leaves the module's mode and system_server as they were.
-- With no expectation given it also means that the helper exited with 0 in an accepted state, and
-- that a new generation is on disk: a larger number, the one answered, in a file that differs from
-- the one before unless the build is a proof of concept.
pub judge_update_lem :
    (o : Observed)
    → judge_update o "" ≡ ok tt
    → IsUnchanged o
      × HasGrown o
      × (contains accepted_states o.response.control_state ≡ true)
      × (o.returncode ≡ 0)
unfolding judge_update
judge_update_lem o h =
    let (same, r₁) = >>-eq-ok (check_unchanged o) _ h in
    let (stored, r₂) = >>-eq-ok (check_accepted o) _ r₁ in
    let (_, met) = >>-eq-ok (check_rejected o) _ r₂ in
    let (state, passed) = (accepted_iff o.response o.returncode).0 met in
    (check_unchanged-IsUnchanged o same, check_accepted-HasGrown o stored state, state, passed)

-- An update that passes the verdict, whatever was expected, while the helper answers `rejected`
-- has changed neither the persisted nor the applied generation, nor the configuration file, whose
-- digest is compared unless the build is a proof of concept.
pub judge_update_rejected :
    (o : Observed) (expected : String)
    → judge_update o expected ≡ ok tt
    → o.response.control_state ≡ "rejected"
    → (o.before.persisted_generation ≡ o.after.persisted_generation)
      × (o.before.applied_generation ≡ o.after.applied_generation)
      × (o.poc ≡ false → o.before_config_digest ≡ o.after_config_digest)
unfolding judge_update
judge_update_rejected o expected h state =
    let (_, r₁) = >>-eq-ok (check_unchanged o) _ h in
    let (_, r₂) = >>-eq-ok (check_accepted o) _ r₁ in
    let (kept, _) = >>-eq-ok (check_rejected o) _ r₂ in
    check_rejected-kept o kept ((eq_iff o.response.control_state "rejected").1 state)
