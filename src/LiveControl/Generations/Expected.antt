-- ===== src/LiveControl/Generations/Expected.antt =====
-- `require_expected_control` of tools/automation/location_live_control.py, against a description of
-- what an expectation means.
use zygveil.Base.{
  ℕ, String, Bool, Bool-cases, inl, inr, refl, sym, subst, all-contains, not-eq-false, not-eq-true,
  &&-left, &&-right, reject->>-eq-ok, not, ◌&&◌, ◌≡◌, ◌≢◌, ◌↔◌, ◌⊎◌, true, false, ◌==◌, some, List,
  [], ◌∷◌, contains, ok, eq_iff, arith,
}
use zygveil.LiveControl.Status.{Status}
use zygveil.LiveControl.Generations.{
  control_expectations, accepted_states, failing_expectations, require_expected_control,
}

-- The expectations that name one control state in which the command has succeeded.
abbrev succeeding_expectations : List String
succeeding_expectations =
    "awaiting_first_coordinates" ∷ "applied" ∷ "saved_pending_upstream" ∷ "saved_pending_reboot"
    ∷ []

-- A control state that is saved.
abbrev pub IsSaved : String → Type 0
IsSaved s = (s ≡ "applied") ⊎ (s ≡ "saved_pending_upstream") ⊎ (s ≡ "saved_pending_reboot")

-- A control state with which a command succeeds.
abbrev pub IsSuccess : String → Type 0
IsSuccess s =
    (s ≡ "awaiting_first_coordinates")
    ⊎ (s ≡ "applied")
    ⊎ (s ≡ "saved_pending_upstream")
    ⊎ (s ≡ "saved_pending_reboot")

-- A control state with which a command fails.
abbrev pub IsFailure : String → Type 0
IsFailure s = (s ≡ "recovery_required") ⊎ (s ≡ "rejected") ⊎ (s ≡ "unavailable")

-- What it means that a command that printed `state` and exited with `code` met its expectation.
abbrev pub Meets : String → String → ℕ → Type 0
Meets state expected code =
    ((expected ≡ "any") × ((code ≡ 0) ⊎ (state ≡ "rejected") ⊎ (state ≡ "unavailable")))
    ⊎ ((expected ≡ "accepted") × IsSaved state × (code ≡ 0))
    ⊎ (IsSuccess expected × (state ≡ expected) × (code ≡ 0))
    ⊎ (IsFailure expected × (state ≡ expected) × (code ≢ 0))

one_of_three : (a b c x : String) → contains (a ∷ b ∷ c ∷ []) x ≡ true ↔ (x ≡ a) ⊎ (x ≡ b) ⊎ (x ≡ c)
one_of_three a b c x = ground (arith, eq_iff x a, eq_iff x b, eq_iff x c)

accepted_states-IsSaved : (s : String) → contains accepted_states s ≡ true ↔ IsSaved s
accepted_states-IsSaved s = one_of_three "applied" "saved_pending_upstream" "saved_pending_reboot" s

failing_expectations-IsFailure : (e : String) → contains failing_expectations e ≡ true ↔ IsFailure e
failing_expectations-IsFailure e = one_of_three "recovery_required" "rejected" "unavailable" e

succeeding-IsSuccess : (e : String) → contains succeeding_expectations e ≡ true ↔ IsSuccess e
succeeding-IsSuccess e = ground (
  arith,
  eq_iff e "awaiting_first_coordinates",
  eq_iff e "applied",
  eq_iff e "saved_pending_upstream",
  eq_iff e "saved_pending_reboot",
)

any_iff :
    (s : Status) (code : ℕ)
    → require_expected_control s "any" (some code) ≡ ok tt
      ↔ (code ≡ 0) ⊎ (s.control_state ≡ "rejected") ⊎ (s.control_state ≡ "unavailable")
unfolding require_expected_control
any_iff s code =
    ground (arith, eq_iff s.control_state "rejected", eq_iff s.control_state "unavailable")

pub accepted_iff :
    (s : Status) (code : ℕ)
    → require_expected_control s "accepted" (some code) ≡ ok tt
      ↔ (contains accepted_states s.control_state ≡ true) × (code ≡ 0)
unfolding require_expected_control
accepted_iff s code = ground arith

-- An expectation that names a state.
names_state : String → Bool
names_state e = contains control_expectations e && not (e == "any") && not (e == "accepted")

failing_iff :
    (s : Status) (e : String) (code : ℕ)
    → names_state e ≡ true
    → contains failing_expectations e ≡ true
    → require_expected_control s e (some code) ≡ ok tt ↔ (s.control_state ≡ e) × (code ≢ 0)
unfolding require_expected_control names_state
failing_iff s e code named failing = ground (arith, eq_iff s.control_state e)

succeeding_iff :
    (s : Status) (e : String) (code : ℕ)
    → names_state e ≡ true
    → contains failing_expectations e ≡ false
    → require_expected_control s e (some code) ≡ ok tt ↔ (s.control_state ≡ e) × (code ≡ 0)
unfolding require_expected_control names_state
succeeding_iff s e code named failing = ground (arith, eq_iff s.control_state e)

known_of_pass :
    (s : Status) (e : String) (code : ℕ)
    → require_expected_control s e (some code) ≡ ok tt
    → contains control_expectations e ≡ true
unfolding require_expected_control
known_of_pass s e code h =
    let (known, _) = reject->>-eq-ok (not (contains control_expectations e)) _ _ h in
    not-eq-false (contains control_expectations e) known

-- A named state is among the succeeding ones or the failing ones.
names_state_of_succeeding :
    (e : String)
    → contains succeeding_expectations e ≡ true
    → (names_state e && not (contains failing_expectations e)) ≡ true
unfolding names_state
names_state_of_succeeding e =
    all-contains (λ x. names_state x && not (contains failing_expectations x))
      succeeding_expectations e refl

names_state_of_failing :
    (e : String) → contains failing_expectations e ≡ true → names_state e ≡ true
unfolding names_state
names_state_of_failing e = all-contains names_state failing_expectations e refl

succeeding_of_names_state :
    (e : String)
    → names_state e ≡ true
    → contains failing_expectations e ≡ false
    → contains succeeding_expectations e ≡ true
unfolding names_state
succeeding_of_names_state e named f = ground arith

module _ (s : Status) (code : ℕ) where
  abbrev Passes : String → Type 0
  Passes e = require_expected_control s e (some code) ≡ ok tt

  named_of_pass :
      (e : String)
      → Passes e
      → (e == "any") ≡ false
      → (e == "accepted") ≡ false
      → Meets s.control_state e code
  unfolding names_state
  named_of_pass e h a b =
      let known = known_of_pass s e code h in
      let named : names_state e ≡ true = rw (known, a, b) in
      elim (Bool-cases (contains failing_expectations e)) [
        | inl f ↦
            let (same, failed) = (failing_iff s e code named f).0 h in
            inr (inr (inr ((failing_expectations-IsFailure e).0 f, same, failed)))
        | inr f ↦
            let (same, passed) = (succeeding_iff s e code named f).0 h in
            inr (
              inr (
                inl
                  ((succeeding-IsSuccess e).0 (succeeding_of_names_state e named f), same, passed)))
      ]

  Meets-of_pass : (e : String) → Passes e → Meets s.control_state e code
  Meets-of_pass e h = elim (Bool-cases (e == "any")) [
    | inl a ↦ let p = (eq_iff e "any").0 a in inl (p, (any_iff s code).0 (subst Passes p h))
    | inr a ↦ elim (Bool-cases (e == "accepted")) [
      | inl b ↦
          let p = (eq_iff e "accepted").0 b in
          let (state, passed) = (accepted_iff s code).0 (subst Passes p h) in
          inr (inl (p, (accepted_states-IsSaved s.control_state).0 state, passed))
      | inr b ↦ named_of_pass e h a b
    ]
  ]

  pass_of_Meets : (e : String) → Meets s.control_state e code → Passes e
  pass_of_Meets e (inl (p, rest)) = subst Passes (sym p) ((any_iff s code).1 rest)
  pass_of_Meets e (inr (inl (p, state, passed))) =
      subst Passes (sym p)
        ((accepted_iff s code).1 ((accepted_states-IsSaved s.control_state).1 state, passed))
  pass_of_Meets e (inr (inr (inl (m, same, passed)))) =
      let both = names_state_of_succeeding e ((succeeding-IsSuccess e).1 m) in
      (succeeding_iff s e code (&&-left _ _ both)
          (not-eq-true (contains failing_expectations e) (&&-right (names_state e) _ both))).1
        (same, passed)
  pass_of_Meets e (inr (inr (inr (m, same, failed)))) =
      let listed = (failing_expectations-IsFailure e).1 m in
      (failing_iff s e code (names_state_of_failing e listed) listed).1 (same, failed)

-- The check passes a command with an exit status exactly when the expectation is met: `any` wants a
-- zero status or a rejected or unavailable state, `accepted` one of the three accepted states and a
-- zero status, the name of a succeeding state that state and a zero status, the name of a failing
-- state that state and a nonzero status.
pub require_expected_control_iff :
    (s : Status) (expected : String) (code : ℕ)
    → require_expected_control s expected (some code) ≡ ok tt ↔ Meets s.control_state expected code
require_expected_control_iff s expected code =
    (Meets-of_pass s code expected, pass_of_Meets s code expected)
