-- ===== src/ServerVpn/Phase/Signals.antt =====
-- What the detectors of a run have shown if `require_phase` of
-- tools/automation/server_vpn_oracle.py returns.
use zygveil.Base.{
  String, ◌≡◌, ◌≢◌, refl, sym, subst, ◌∙◌, Bool, true, false, not, ◌&&◌, ◌==◌, some, some-injective,
  List, [], ◌∷◌, Dict, lookup, any, ok, >>=-eq-ok, reject->>-eq-ok, reject-eq-ok, not-eq-false,
  Bool-cases, inl, inr, eq_iff, arith,
}
use zygveil.Json.{text}
use zygveil.ServerVpn.Records.{Item, Run, first_of, detector_records}
use zygveil.ServerVpn.Phase.{
  records_of, is_mandatory, mandatory_of, has_status, is_empty, is_positive, is_negative,
  is_sanitized, check_target, check_stock, check_source, check_group, require_phase,
}

any-mandatory_of :
    (test : Item → Bool) (rs : List Item)
    → any test (mandatory_of rs) ≡ any (λ r. is_mandatory r && test r) rs
unfolding mandatory_of
any-mandatory_of test [] = refl
any-mandatory_of test (r ∷ rs) = ground (arith, any-mandatory_of test rs)

any-records_of :
    (test : Item → Bool) (d : Dict Item) (id : String) (r : Item)
    → any test (records_of d) ≡ false
    → lookup id d ≡ some r
    → test r ≡ false
unfolding lookup
any-records_of test [] id r h found = cc
any-records_of test ((j, s) ∷ d) id r h found = elim (Bool-cases (j == id)) [
  | inl same ↦ subst (λ x. test x ≡ false) (some-injective s r (rw same at found)) (ground arith)
  | inr other ↦ any-records_of test d id r (ground arith) (rw other at found)
]

-- No mandatory detector shows the VPN: each is negative, from a source that was there and was
-- cleaned.
pub record ShowsNothing (detectors : Dict Item) : Type 0 where
  pub negative :
      (id : String) (r : Item)
      → lookup id detectors ≡ some r
      → is_mandatory r ≡ true
      → is_negative r ≡ true
  pub sanitized :
      (id : String) (r : Item)
      → lookup id detectors ≡ some r
      → is_mandatory r ≡ true
      → is_sanitized r ≡ true

-- Some mandatory detector shows the VPN, and each has come to a result.
pub record ShowsVpn (detectors : Dict Item) : Type 0 where
  pub seen : any (λ r. is_mandatory r && is_positive r) (records_of detectors) ≡ true
  pub complete :
      (id : String) (r : Item)
      → lookup id detectors ≡ some r
      → is_mandatory r ≡ true
      → has_status ("INCONCLUSIVE" ∷ "ERROR" ∷ "UNAVAILABLE" ∷ []) r ≡ false

-- A test that fails on every mandatory detector.
module _ (test : Item → Bool) (d : Dict Item)
    (h : any test (mandatory_of (records_of d)) ≡ false) where
  fails : (id : String) (r : Item) → lookup id d ≡ some r → is_mandatory r ≡ true → test r ≡ false
  fails id r found mandatory =
      let both =
        any-records_of (λ x. is_mandatory x && test x) d id r
          (sym (any-mandatory_of test (records_of d)) ∙ h) found in
      ground arith

check_target-ShowsNothing :
    (d : Dict Item) → check_target (mandatory_of (records_of d)) ≡ ok tt → ShowsNothing d
unfolding check_target
check_target-ShowsNothing d h =
    let (negative, r) =
      reject->>-eq-ok (any (λ r. not (is_negative r)) (mandatory_of (records_of d))) _ _ h in
    let sanitized =
      reject-eq-ok (any (λ r. not (is_sanitized r)) (mandatory_of (records_of d))) _ r in
    record {
      negative = λ id r found mandatory.
          not-eq-false _ (fails (λ r. not (is_negative r)) d negative id r found mandatory);
      sanitized = λ id r found mandatory.
          not-eq-false _ (fails (λ r. not (is_sanitized r)) d sanitized id r found mandatory);
    }

check_stock-ShowsVpn :
    (d : Dict Item) → check_stock (mandatory_of (records_of d)) ≡ ok tt → ShowsVpn d
unfolding check_stock
check_stock-ShowsVpn d h =
    let (complete, r) =
      reject->>-eq-ok
        (any (has_status ("INCONCLUSIVE" ∷ "ERROR" ∷ "UNAVAILABLE" ∷ []))
          (mandatory_of (records_of d)))
        _ _ h in
    let seen = reject-eq-ok (not (any is_positive (mandatory_of (records_of d)))) _ r in
    record {
      seen = sym (any-mandatory_of is_positive (records_of d)) ∙ not-eq-false _ seen;
      complete = fails (has_status ("INCONCLUSIVE" ∷ "ERROR" ∷ "UNAVAILABLE" ∷ [])) d complete;
    }

-- What a phase of a group shows that is not the link group.
abbrev pub Shows : Bool → Dict Item → Type 0
Shows true d = ShowsNothing d
Shows false d = ShowsVpn d

check_source-Shows :
    (target_active : Bool) (d : Dict Item)
    → check_source target_active (mandatory_of (records_of d)) ≡ ok tt
    → Shows target_active d
unfolding check_source
check_source-Shows true d h =
    check_target-ShowsNothing d (reject->>-eq-ok (is_empty (mandatory_of (records_of d))) _ _ h).1
check_source-Shows false d h =
    check_stock-ShowsVpn d (reject->>-eq-ok (is_empty (mandatory_of (records_of d))) _ _ h).1

other_group : (group : String) → group ≢ "server-vpn-link" → (group == "server-vpn-link") ≡ false
other_group group h = ground (arith, eq_iff group "server-vpn-link")

check_group-Shows :
    (target_active : Bool) (group : String) (d : Dict Item)
    → group ≢ "server-vpn-link"
    → check_group target_active (some (text group)) (records_of d) ≡ ok tt
    → Shows target_active d
check_group-Shows target_active group d other h =
    check_source-Shows target_active d (rw (other_group group other) at h)

pub require_phase-Shows :
    (records : Run) (target_active : Bool) (first : Item) (group : String)
    → require_phase records target_active ≡ ok tt
    → first_of records ≡ ok first
    → lookup "group" first ≡ some (text group)
    → group ≢ "server-vpn-link"
    → (detectors : Dict Item) × (detector_records records ≡ ok detectors)
      × Shows target_active detectors
unfolding require_phase
require_phase-Shows records target_active first group h top named other =
    let (detectors, e, r₁) = >>=-eq-ok (detector_records records) _ h in
    let (_, r₂) =
      reject->>-eq-ok (any (has_status ("ERROR" ∷ "UNAVAILABLE" ∷ [])) (records_of detectors)) _ _
        r₁ in
    (
      detectors,
      e,
      check_group-Shows target_active group detectors other (rw named at (rw top at r₂)),
    )
