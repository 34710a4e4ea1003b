-- ===== src/ServerVpn/Differential/Diagnostics.antt =====
-- The detectors of a run that passes `require_diagnostics_residual` of
-- tools/automation/server_vpn_oracle.py.
use zygveil.Base.{
  String, ◌≡◌, refl, subst, ◌⊎◌, inl, inr, Bool, Bool-cases, true, false, not, ◌==◌, none, some,
  some-injective, [], ◌∷◌, Dict, keys, lookup, any, has_exactly, has_key, contains, all,
  all-contains, &&-left, &&-right, ok, not-eq-false, eq_iff, arith,
}
use zygveil.Json.{Json, bool, text, obj, field, end, entries, fields}
use zygveil.Json.Same.{Reals}
use zygveil.ServerVpn.Identity.{is_bool-bool}
use zygveil.ServerVpn.Records.{Item, Run, is_bool, detector_records}
use zygveil.ServerVpn.Projection.{stable_run_projection, same_projection}
use zygveil.ServerVpn.Differential.{
  diagnostics_mandatory, diagnostics_residual_projection, mandatory_differs,
}
use zygveil.ServerVpn.Differential.Statuses.{expected, projected_status}

-- A detector that is there, is mandatory or not, and has a status.
abbrev pub Holds : Dict Item → String → Bool → String → Type 0
Holds detectors id mandatory status =
    (r : Item) × (lookup id detectors ≡ some r)
    × (lookup "mandatory" r ≡ some (bool mandatory))
    × (lookup "status" r ≡ some (text status))

-- An id of the diagnostics group.
abbrev pub IsDiagnostic : String → Type 0
IsDiagnostic id =
    (id ≡ "diagnostics.lifecycle")
    ⊎ (id ≡ "diagnostics.connectivity_report")
    ⊎ (id ≡ "diagnostics.data_stall_report")
    ⊎ (id ≡ "diagnostics.connectivity_result")

-- The four diagnostics detectors and no other.
pub record AreDiagnostics (detectors : Dict Item) : Type 0 where
  pub lifecycle : Holds detectors "diagnostics.lifecycle" true "NEGATIVE"
  pub connectivity_report : Holds detectors "diagnostics.connectivity_report" true "INCONCLUSIVE"
  pub data_stall_report : Holds detectors "diagnostics.data_stall_report" false "INCONCLUSIVE"
  pub connectivity_result : Holds detectors "diagnostics.connectivity_result" false "INCONCLUSIVE"
  pub only : (id : String) → has_key detectors id ≡ true → IsDiagnostic id

-- A key that is there has a value, and what holds of no member does not hold of that one.
has_key-lookup :
    (d : Dict Item) (id : String) → has_key d id ≡ true → (r : Item) × (lookup id d ≡ some r)
unfolding lookup
has_key-lookup [] id h = absurd (ground arith)
has_key-lookup ((j, s) ∷ d) id h = elim (Bool-cases (j == id)) [
  | inl same ↦ (s, rw same refl)
  | inr other ↦
      let (r, e) = has_key-lookup d id (ground (arith, eq_iff id j, eq_iff j id)) in (r, rw other e)
]

any-lookup :
    (test : String × Item → Bool) (d : Dict Item) (id : String) (r : Item)
    → any test d ≡ false
    → lookup id d ≡ some r
    → test (id, r) ≡ false
unfolding lookup
any-lookup test [] id r h found = absurd (ground arith)
any-lookup test ((j, s) ∷ d) id r h found = elim (Bool-cases (j == id)) [
  | inl same ↦
      let value : s ≡ r = some-injective s r (rw same at found) in
      let key : j ≡ id = (eq_iff j id).0 same in
      subst (λ x. test (id, x) ≡ false) value (subst (λ x. test (x, s) ≡ false) key (ground arith))
  | inr other ↦ any-lookup test d id r (ground arith) (rw other at found)
]

-- A run whose catalog, metadata and projection are those of the residual.
module _ (reals : Reals) (records : Run) (d : Dict Item) (p : Dict Json)
    (collected : detector_records records ≡ ok d) (projected : stable_run_projection records ≡ ok p)
    (alike : same_projection reals p diagnostics_residual_projection ≡ true)
    (metadata : any (mandatory_differs diagnostics_mandatory) d ≡ false) where
  Holds-of :
      (id status : String) (mandatory : Bool) (observation : Json)
      → has_key d id ≡ true
      → lookup id diagnostics_mandatory ≡ some mandatory
      → lookup id expected
        ≡ some (obj (field "status" (text status) (field "observation" observation end)))
      → Holds d id mandatory status
  Holds-of id status mandatory observation there listed named =
      let (r, e) = has_key-lookup d id there in
      let same : not (is_bool (lookup "mandatory" r) mandatory) ≡ false =
        subst
          (λ o.
            elim o as (λ _. Bool) [ none ↦ true | some b ↦ not (is_bool (lookup "mandatory" r) b) ]
            ≡ false)
          listed (any-lookup (mandatory_differs diagnostics_mandatory) d id r metadata e) in
      (
        r,
        e,
        is_bool-bool (lookup "mandatory" r) mandatory (not-eq-false _ same),
        projected_status reals records d p id status observation r collected projected alike named
            e,
      )

is_diagnostic : (id : String) → contains (keys diagnostics_mandatory) id ≡ true → IsDiagnostic id
is_diagnostic id h = ground (
  arith,
  eq_iff id "diagnostics.lifecycle",
  eq_iff id "diagnostics.connectivity_report",
  eq_iff id "diagnostics.data_stall_report",
  eq_iff id "diagnostics.connectivity_result",
)

module _ (reals : Reals) (records : Run) (d : Dict Item) (p : Dict Json) where
  pub diagnostics_of :
      detector_records records ≡ ok d
      → stable_run_projection records ≡ ok p
      → same_projection reals p diagnostics_residual_projection ≡ true
      → any (mandatory_differs diagnostics_mandatory) d ≡ false
      → has_exactly d (keys diagnostics_mandatory) ≡ true
      → AreDiagnostics d
  unfolding lookup entries fields
  diagnostics_of collected projected alike metadata catalog =
      let names = &&-right (all (contains (keys diagnostics_mandatory)) (keys d)) _ catalog in
      let holds = Holds-of reals records d p collected projected alike metadata in
      record {
        lifecycle = holds "diagnostics.lifecycle" "NEGATIVE" true _ (ground arith) refl refl;
        connectivity_report =
            holds "diagnostics.connectivity_report" "INCONCLUSIVE" true _ (ground arith) refl refl;
        data_stall_report =
            holds "diagnostics.data_stall_report" "INCONCLUSIVE" false _ (ground arith) refl refl;
        connectivity_result =
            holds "diagnostics.connectivity_result" "INCONCLUSIVE" false _ (ground arith) refl refl;
        only = λ id there. is_diagnostic id (
            all-contains (contains (keys diagnostics_mandatory)) (keys d) id (&&-left _ _ catalog)
              there);
      }
