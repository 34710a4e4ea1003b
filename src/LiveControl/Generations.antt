-- ===== src/LiveControl/Generations.antt =====
-- The generation checks of `parse_status` in tools/automation/location_live_control.py, and
-- `parse_status` itself; `require_expected_control`.
pub mod Order
pub mod Expected
use zygveil.Base.{
  ℕ, String, Bool, true, false, not, ◌&&◌, ◌||◌, ◌==◌, Option, none, some, List, [], ◌∷◌, Dict,
  has_exactly, contains, lookup, is_text, eqb, ltb, leb, join, Result, ok, err, ◌>>=◌, ◌>>◌, reject,
  if◌then◌else◌,
}
use zygveil.LiveControl.Properties.{parse_properties}
use zygveil.LiveControl.Status.{
  Status, Numbers, status_keys, read_fields, numbers, is_active, is_waiting, error_envelope,
  check_size, check_integers, check_tokens, check_reason, check_boot_id, check_wire, check_identity,
  check_transition,
}

-- One check for each control state that says something of the generations: what the state demands,
-- from the reason and the numbers. `a == b == c` is the conjunction of the neighbours.
unfoldable pub waiting_demand : Status → Numbers → Bool
waiting_demand s n =
    is_waiting s
    && s.reason == "none"
    && ltb 0 n.boot
    && eqb n.persisted n.published
    && eqb n.published n.applied
    && eqb n.applied n.boot

unfoldable pub applied_demand : Status → Numbers → Bool
applied_demand s n =
    s.reason == "none"
    && ltb 0 n.boot
    && eqb n.persisted n.published
    && eqb n.published n.applied
    && leb n.boot n.applied

unfoldable pub upstream_demand : Status → Numbers → Bool
upstream_demand s n =
    s.reason == "none"
    && ltb 0 n.boot
    && eqb n.persisted n.published
    && ltb n.applied n.published
    && leb n.boot n.applied

unfoldable pub reboot_demand : Status → Numbers → Bool
reboot_demand s n =
    ltb 0 n.boot
    && ltb n.published n.persisted
    && leb n.applied n.published
    && leb n.boot n.applied
    && s.reason == "publish_unavailable"

abbrev pub rejected_persistence : Status → Numbers → Bool
rejected_persistence s n =
    (s.reason == "persisted_runtime_rejection" || s.reason == "rollback_failed")
    && eqb n.persisted n.published
    && ltb n.applied n.published

abbrev pub uncertain_rollback : Status → Numbers → Bool
uncertain_rollback s n =
    s.reason == "rollback_persistence_uncertain"
    && eqb n.persisted n.applied
    && ltb n.applied n.published

abbrev pub uncertain_persistence : Status → Numbers → Bool
uncertain_persistence s n =
    s.reason == "persistence_uncertain" && ltb n.published n.persisted && eqb n.published n.applied

unfoldable pub recovery_demand : Status → Numbers → Bool
recovery_demand s n =
    ltb 0 n.boot
    && leb n.boot n.applied
    && (rejected_persistence s n || uncertain_rollback s n || uncertain_persistence s n)

unfoldable pub rejected_demand : Status → Numbers → Bool
rejected_demand s n =
    not (s.reason == "none")
    && ltb 0 n.boot
    && ltb n.applied n.published
    && leb n.boot n.applied
    && eqb n.persisted n.applied

unfoldable pub check_generations : Status → Numbers → Result (Unit {0})
check_generations s n = do
  reject (s.control_state == "awaiting_first_coordinates" && not (waiting_demand s n))
      "live helper waiting generations are inconsistent"
  reject (s.control_state == "applied" && not (applied_demand s n))
      "live helper applied generations are inconsistent"
  reject (s.control_state == "saved_pending_upstream" && not (upstream_demand s n))
      "live helper pending generations are inconsistent"
  reject (s.control_state == "saved_pending_reboot" && not (reboot_demand s n))
      "live helper reboot-pending generations are inconsistent"
  reject (s.control_state == "recovery_required" && not (recovery_demand s n))
      "live helper recovery generations are inconsistent"
  reject (s.control_state == "rejected" && not (error_envelope s) && not (rejected_demand s n))
      "live helper rejected generations are inconsistent"

unfoldable pub check_schema : Dict String → Result (Unit {0})
check_schema values =
    reject
      (not (has_exactly values status_keys) || not (is_text (lookup "schema_version" values) "1"))
      "live helper status schema/key set mismatch"

unfoldable pub check_status : Status → Result (Unit {0})
check_status s = do
  check_integers s
  check_tokens s
  check_reason s
  check_boot_id s
  check_wire (numbers s)
  check_identity s (numbers s)
  check_transition s
  check_generations s (numbers s)

unfoldable pub parse_status : String → Result Status
parse_status text = do
  check_size text
  values ← parse_properties text
  check_schema values
  s ← read_fields values
  check_status s
  ok s

abbrev pub control_expectations : List String
control_expectations =
    "any" ∷ "accepted" ∷ "awaiting_first_coordinates" ∷ "applied" ∷ "saved_pending_upstream"
    ∷ "saved_pending_reboot" ∷ "recovery_required" ∷ "rejected" ∷ "unavailable" ∷ []

abbrev pub accepted_states : List String
accepted_states = "applied" ∷ "saved_pending_upstream" ∷ "saved_pending_reboot" ∷ []

abbrev pub failing_expectations : List String
failing_expectations = "recovery_required" ∷ "rejected" ∷ "unavailable" ∷ []

unfoldable pub state_matches : String → String → Bool
state_matches state expected =
    if expected == "accepted"
    then contains accepted_states state
    else expected == "any" || state == expected

-- With the exit status of the command that printed the state.
unfoldable pub exit_matches : String → String → ℕ → Bool
exit_matches state expected code =
    if contains failing_expectations expected
    then not (eqb code 0)
    else if not (expected == "any")
    then eqb code 0
    else eqb code 0 || not (eqb code 0) && (state == "rejected" || state == "unavailable")

abbrev pub exit_ok : String → String → Option ℕ → Bool
exit_ok state expected none = true
exit_ok state expected (some code) = exit_matches state expected code

unfoldable pub require_expected_control : Status → String → Option ℕ → Result (Unit {0})
unfolding state_matches exit_matches
require_expected_control s expected command_exit = do
  reject (not (contains control_expectations expected)) "unsupported expected live control state"
  reject
      (not
        (state_matches s.control_state expected && exit_ok s.control_state expected command_exit))
      (join "live control state mismatch: expected "
        (join expected (join ", got " s.control_state)))
