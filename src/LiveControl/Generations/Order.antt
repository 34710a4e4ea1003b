-- ===== src/LiveControl/Generations/Order.antt =====
-- What holds of a status that `parse_status` of tools/automation/location_live_control.py accepts.
use zygveil.Base.{
  ◌≤◌, ◌<◌, String, true, false, not, ◌==◌, ◌≡◌, contains, ok, >>=-eq-ok, >>-eq-ok, reject->>-eq-ok,
  not-eq-false, ok-injective, subst, ◌^◌, ◌↔◌, ◌≢◌, ◌||◌, eq_iff, arith,
}
use zygveil.LiveControl.Properties.{parse_properties}
use zygveil.LiveControl.Status.{
  Status, Numbers, numbers, control_states, module_states, runtime_states, error_envelope,
  check_size, check_integers, check_tokens, check_reason, check_boot_id, check_wire, check_identity,
  check_transition, read_fields, is_active, is_waiting,
}
use zygveil.LiveControl.Generations.{
  waiting_demand, applied_demand, upstream_demand, reboot_demand, recovery_demand, rejected_demand,
  check_generations, check_schema, check_status, parse_status,
}

-- The generations of a running module: it booted with one, and what is applied is not older than
-- that, and not newer than what is published or persisted.
pub record IsOrdered (n : Numbers) : Type 0 where
  pub booted : 0 < n.boot
  pub from_boot : n.boot ≤ n.applied
  pub not_unpublished : n.applied ≤ n.published
  pub not_unpersisted : n.applied ≤ n.persisted

module _ (s : Status) (n : Numbers) where
  waiting-IsOrdered : waiting_demand s n ≡ true → IsOrdered n
  unfolding waiting_demand
  waiting-IsOrdered h = ground arith

  applied-IsOrdered : applied_demand s n ≡ true → IsOrdered n
  unfolding applied_demand
  applied-IsOrdered h = ground arith

  upstream-IsOrdered : upstream_demand s n ≡ true → IsOrdered n
  unfolding upstream_demand
  upstream-IsOrdered h = ground arith

  reboot-IsOrdered : reboot_demand s n ≡ true → IsOrdered n
  unfolding reboot_demand
  reboot-IsOrdered h = ground arith

  recovery-IsOrdered : recovery_demand s n ≡ true → IsOrdered n
  unfolding recovery_demand
  recovery-IsOrdered h = ground arith

  rejected-IsOrdered : rejected_demand s n ≡ true → IsOrdered n
  unfolding rejected_demand
  rejected-IsOrdered h = ground arith

  check_generations-IsOrdered :
      check_generations s n ≡ ok tt
      → contains control_states s.control_state ≡ true
      → (s.control_state == "unavailable") ≡ false
      → error_envelope s ≡ false
      → IsOrdered n
  unfolding check_generations
  check_generations-IsOrdered h known available real = ground (
    arith, waiting-IsOrdered, applied-IsOrdered, upstream-IsOrdered, reboot-IsOrdered,
    recovery-IsOrdered, rejected-IsOrdered,
  )

-- The checks that a status has passed.
pub record Passed (s : Status) : Type 0 where
  pub integers : check_integers s ≡ ok tt
  pub tokens : check_tokens s ≡ ok tt
  pub reason : check_reason s ≡ ok tt
  pub boot_id : check_boot_id s ≡ ok tt
  pub wire : check_wire (numbers s) ≡ ok tt
  pub identity : check_identity s (numbers s) ≡ ok tt
  pub transition : check_transition s ≡ ok tt
  pub generations : check_generations s (numbers s) ≡ ok tt

pub check_status-Passed : (s : Status) → check_status s ≡ ok tt → Passed s
unfolding check_status
check_status-Passed s h =
    let (h₁, r₁) = >>-eq-ok (check_integers s) _ h in
    let (h₂, r₂) = >>-eq-ok (check_tokens s) _ r₁ in
    let (h₃, r₃) = >>-eq-ok (check_reason s) _ r₂ in
    let (h₄, r₄) = >>-eq-ok (check_boot_id s) _ r₃ in
    let (h₅, r₅) = >>-eq-ok (check_wire (numbers s)) _ r₄ in
    let (h₆, r₆) = >>-eq-ok (check_identity s (numbers s)) _ r₅ in
    let (h₇, h₈) = >>-eq-ok (check_transition s) _ r₆ in
    record {
      integers = h₁;
      tokens = h₂;
      reason = h₃;
      boot_id = h₄;
      wire = h₅;
      identity = h₆;
      transition = h₇;
      generations = h₈;
    }

pub parse_status-Passed : (text : String) (s : Status) → parse_status text ≡ ok s → Passed s
unfolding parse_status
parse_status-Passed text s h =
    let (_, r₁) = >>-eq-ok (check_size text) _ h in
    let (values, _, r₂) = >>=-eq-ok (parse_properties text) _ r₁ in
    let (_, r₃) = >>-eq-ok (check_schema values) _ r₂ in
    let (t, _, r₄) = >>=-eq-ok (read_fields values) _ r₃ in
    let (passed, same) = >>-eq-ok (check_status t) (ok t) r₄ in
    subst Passed (ok-injective same) (check_status-Passed t passed)

check_tokens-known :
    (s : Status) → check_tokens s ≡ ok tt → contains control_states s.control_state ≡ true
unfolding check_tokens
check_tokens-known s h =
    let (_, r₁) = reject->>-eq-ok (not (contains module_states s.module_state)) _ _ h in
    let (_, r₂) = reject->>-eq-ok (not (contains runtime_states s.runtime_state)) _ _ r₁ in
    let (known, _) = reject->>-eq-ok (not (contains control_states s.control_state)) _ _ r₂ in
    not-eq-false (contains control_states s.control_state) known

-- In every accepted status, unless its control state is `unavailable` or it is the error envelope,
-- the module booted with a generation, and the applied generation is at least that one and at most
-- the published and the persisted ones.
pub parse_status-IsOrdered :
    (text : String) (s : Status)
    → parse_status text ≡ ok s
    → (s.control_state == "unavailable") ≡ false
    → error_envelope s ≡ false
    → IsOrdered (numbers s)
parse_status-IsOrdered text s h available real =
    let p = parse_status-Passed text s h in
    check_generations-IsOrdered s (numbers s) p.generations (check_tokens-known s p.tokens)
      available real

pub record FitsWire (n : Numbers) : Type 0 where
  pub boot : n.boot < 2 ^ 62
  pub persisted : n.persisted < 2 ^ 62
  pub published : n.published < 2 ^ 62
  pub applied : n.applied < 2 ^ 62
  pub pid : n.pid < 2 ^ 32
  pub ticks : n.ticks < 2 ^ 64

check_wire-FitsWire : (n : Numbers) → check_wire n ≡ ok tt → FitsWire n
unfolding check_wire
check_wire-FitsWire n h = ground arith

check_identity-together :
    (s : Status) (n : Numbers) → check_identity s n ≡ ok tt → n.pid ≡ 0 ↔ n.ticks ≡ 0
unfolding check_identity
check_identity-together s n h = ground arith

check_identity-live :
    (s : Status) (n : Numbers)
    → check_identity s n ≡ ok tt
    → (is_active s || is_waiting s) ≡ true
    → (0 < n.pid) × (0 < n.ticks) × (s.boot_id ≢ "unavailable")
unfolding check_identity
check_identity-live s n h live =
    (ground arith, ground arith, ground (arith, eq_iff s.boot_id "unavailable"))

-- The numbers of an accepted status are below the limits of their fields on the wire: 2 ^ 62 for a
-- generation, 2 ^ 32 for the process id and 2 ^ 64 for its start time. The process id is 0 just when
-- the start time is, and neither is 0 nor is the boot id `unavailable` where module and runtime are
-- both active, or both waiting.
pub parse_status_wire :
    (text : String) (s : Status)
    → parse_status text ≡ ok s
    → FitsWire (numbers s)
      × ((numbers s).pid ≡ 0 ↔ (numbers s).ticks ≡ 0)
      × ((is_active s || is_waiting s) ≡ true
          → (0 < (numbers s).pid) × (0 < (numbers s).ticks) × (s.boot_id ≢ "unavailable"))
parse_status_wire text s h =
    let p = parse_status-Passed text s h in
    (
      check_wire-FitsWire (numbers s) p.wire,
      check_identity-together s (numbers s) p.identity,
      check_identity-live s (numbers s) p.identity,
    )
