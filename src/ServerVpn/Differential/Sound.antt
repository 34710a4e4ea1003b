-- ===== src/ServerVpn/Differential/Sound.antt =====
-- What a passed differential of tools/automation/server_vpn_oracle.py says of the four runs.
use zygveil.Base.{
  String, ◌≡◌, ◌≢◌, refl, subst, true, false, not, Dict, keys, contains, has_exactly, length, ok,
  >>=-eq-ok, >>-eq-ok, reject->>-eq-ok, reject-eq-ok, ok-injective, not-eq-false,
}
use zygveil.Json.{Json}
use zygveil.Json.Same.{Reals}
use zygveil.ServerVpn.Records.{Item, Run, detector_records, Seconds}
use zygveil.ServerVpn.Clock.{IsClock}
use zygveil.ServerVpn.Projection.{stable_run_projection, same_projection}
use zygveil.ServerVpn.Phase.{require_phase}
use zygveil.ServerVpn.Phase.Signals.{ShowsNothing, ShowsVpn}
use zygveil.ServerVpn.Differential.{
  Runs, Verdict, callback_groups, check_catalog, identify, check_roles, check_catalogs,
  check_phases, check_projections, compare_runs, measure_overlap, evaluate_differential,
}
use zygveil.ServerVpn.Differential.Identified.{AreIdentified, identify-AreIdentified, phase-Shows}
use zygveil.ServerVpn.Differential.Overlap.{IsMeasured, measure_overlap-IsMeasured}

-- Every run has exactly the detectors of the baseline.
pub record AreCatalogued (runs : Runs) (baseline : Dict Item) : Type 0 where
  pub of_baseline : detector_records runs.baseline ≡ ok baseline
  pub target :
      (d : Dict Item) × (detector_records runs.active_target ≡ ok d)
      × (has_exactly d (keys baseline) ≡ true)
  pub canary :
      (d : Dict Item) × (detector_records runs.active_canary ≡ ok d)
      × (has_exactly d (keys baseline) ≡ true)
  pub rollback :
      (d : Dict Item) × (detector_records runs.rollback ≡ ok d)
      × (has_exactly d (keys baseline) ≡ true)

check_catalog-has_exactly :
    (baseline : Dict Item) (records : Run)
    → check_catalog baseline records ≡ ok tt
    → (d : Dict Item) × (detector_records records ≡ ok d) × (has_exactly d (keys baseline) ≡ true)
unfolding check_catalog
check_catalog-has_exactly baseline records h =
    let (d, e, r) = >>=-eq-ok (detector_records records) _ h in
    (d, e, not-eq-false _ (reject-eq-ok (not (has_exactly d (keys baseline))) _ r))

check_catalogs-AreCatalogued :
    (runs : Runs) (baseline : Dict Item)
    → check_catalogs runs ≡ ok baseline
    → AreCatalogued runs baseline
unfolding check_catalogs
check_catalogs-AreCatalogued runs baseline h =
    let (d, e, r₁) = >>=-eq-ok (detector_records runs.baseline) _ h in
    let (t, r₂) = >>-eq-ok (check_catalog d runs.active_target) _ r₁ in
    let (c, r₃) = >>-eq-ok (check_catalog d runs.active_canary) _ r₂ in
    let (k, r₄) = >>-eq-ok (check_catalog d runs.rollback) (ok d) r₃ in
    let found : AreCatalogued runs d = record {
      of_baseline = e;
      target = check_catalog-has_exactly d runs.active_target t;
      canary = check_catalog-has_exactly d runs.active_canary c;
      rollback = check_catalog-has_exactly d runs.rollback k;
    } in
    subst (AreCatalogued runs) (ok-injective r₄) found

-- The canary and the rollback look like the stock system, and the target does not.
pub record AreCompared (reals : Reals) (runs : Runs) : Type 0 where
  pub baseline : Dict Json
  pub target : Dict Json
  pub canary : Dict Json
  pub rollback : Dict Json
  pub of_baseline : stable_run_projection runs.baseline ≡ ok baseline
  pub of_target : stable_run_projection runs.active_target ≡ ok target
  pub of_canary : stable_run_projection runs.active_canary ≡ ok canary
  pub of_rollback : stable_run_projection runs.rollback ≡ ok rollback
  pub canary_stock : same_projection reals baseline canary ≡ true
  pub rollback_stock : same_projection reals baseline rollback ≡ true
  pub target_changed : same_projection reals baseline target ≡ false

check_projections-verdict :
    (reals : Reals) (b t c k : Dict Json)
    → check_projections reals b t c k ≡ ok tt
    → (same_projection reals b c ≡ true)
      × (same_projection reals b k ≡ true)
      × (same_projection reals b t ≡ false)
unfolding check_projections
check_projections-verdict reals b t c k h =
    let (e₁, r₁) = reject->>-eq-ok (not (same_projection reals b c)) _ _ h in
    let (e₂, r₂) = reject->>-eq-ok (not (same_projection reals b k)) _ _ r₁ in
    (not-eq-false _ e₁, not-eq-false _ e₂, reject-eq-ok (same_projection reals b t) _ r₂)

compare_runs-AreCompared :
    (reals : Reals) (runs : Runs) → compare_runs reals runs ≡ ok tt → AreCompared reals runs
unfolding compare_runs
compare_runs-AreCompared reals runs h =
    let (b, e₁, r₁) = >>=-eq-ok (stable_run_projection runs.baseline) _ h in
    let (t, e₂, r₂) = >>=-eq-ok (stable_run_projection runs.active_target) _ r₁ in
    let (c, e₃, r₃) = >>=-eq-ok (stable_run_projection runs.active_canary) _ r₂ in
    let (k, e₄, r₄) = >>=-eq-ok (stable_run_projection runs.rollback) _ r₃ in
    let (canary, rollback, target) = check_projections-verdict reals b t c k r₄ in
    record {
      baseline = b;
      target = t;
      canary = c;
      rollback = k;
      of_baseline = e₁;
      of_target = e₂;
      of_canary = e₃;
      of_rollback = e₄;
      canary_stock = canary;
      rollback_stock = rollback;
      target_changed = target;
    }

-- What the mandatory detectors have shown, for a group that is not the link group.
pub record AreShown (runs : Runs) : Type 0 where
  pub baseline : (d : Dict Item) × (detector_records runs.baseline ≡ ok d) × ShowsVpn d
  pub target : (d : Dict Item) × (detector_records runs.active_target ≡ ok d) × ShowsNothing d
  pub canary : (d : Dict Item) × (detector_records runs.active_canary ≡ ok d) × ShowsVpn d
  pub rollback : (d : Dict Item) × (detector_records runs.rollback ≡ ok d) × ShowsVpn d

check_phases-AreShown :
    (reals : Reals) (runs : Runs) (group role : String)
    → AreIdentified reals runs group role
    → check_phases runs ≡ ok tt
    → group ≢ "server-vpn-link"
    → AreShown runs
unfolding check_phases
check_phases-AreShown reals runs group role i h other =
    let (b, r₁) = >>-eq-ok (require_phase runs.baseline false) _ h in
    let (t, r₂) = >>-eq-ok (require_phase runs.active_target true) _ r₁ in
    let (c, k) = >>-eq-ok (require_phase runs.active_canary false) _ r₂ in
    record {
      baseline =
          phase-Shows reals runs.baseline "primary" false false group role i.baseline b other;
      target = phase-Shows reals runs.active_target "primary" true true group role i.target t other;
      canary = phase-Shows reals runs.active_canary "canary" true false group role i.canary c other;
      rollback =
          phase-Shows reals runs.rollback "primary" false false group role i.rollback k other;
    }

-- What a verdict stands for.
pub record IsDifferential (reals : Reals) (seconds : Seconds) (runs : Runs) (v : Verdict)
    : Type 0 where
  pub identified : AreIdentified reals runs v.group v.process_role
  pub catalogued : (d : Dict Item) × AreCatalogued runs d × (v.detector_count ≡ length d)
  pub shown : v.group ≢ "server-vpn-link" → AreShown runs
  pub compared : AreCompared reals runs
  pub measured : IsMeasured seconds runs v.group v.overlap_ms

-- A differential that passes stands for four runs with the same detectors. Every record of them names
-- one group and one process for its run, the variant of the run, a VPN, and the module off or on as
-- announced, and the processes have one role. Outside the link group, no mandatory detector of the target
-- shows the VPN while each of the other three runs shows it. The canary and the rollback have the
-- projection of the stock system and the target has another. In a callback group the target and the canary
-- each began before the other ended, as far as times compare as finite floating-point numbers do.
pub evaluate_differential_sound :
    (reals : Reals) (seconds : Seconds) (runs : Runs) (v : Verdict)
    → IsClock seconds
    → evaluate_differential reals seconds runs ≡ ok v
    → IsDifferential reals seconds runs v
unfolding evaluate_differential
evaluate_differential_sound reals seconds runs v clock h =
    let (roles, named, r₁) = >>=-eq-ok (identify reals runs) _ h in
    let (one, r₂) = >>-eq-ok (check_roles roles) _ r₁ in
    let (d, catalog, r₃) = >>=-eq-ok (check_catalogs runs) _ r₂ in
    let (phases, r₄) = >>-eq-ok (check_phases runs) _ r₃ in
    let (compared, r₅) = >>-eq-ok (compare_runs reals runs) _ r₄ in
    let (overlap, measured, r₆) = >>=-eq-ok (measure_overlap seconds runs roles.baseline.0) _ r₅ in
    let identified = identify-AreIdentified reals runs roles named one in
    let found : IsDifferential reals seconds runs (record {
      group = roles.baseline.0;
      process_role = roles.baseline.1;
      detector_count = length d;
      overlap_ms = overlap;
      overlap_required = contains callback_groups roles.baseline.0;
    }) =
      record {
        identified = identified;
        catalogued = (d, check_catalogs-AreCatalogued runs d catalog, refl);
        shown =
            check_phases-AreShown reals runs roles.baseline.0 roles.baseline.1 identified phases;
        compared = compare_runs-AreCompared reals runs compared;
        measured = measure_overlap-IsMeasured seconds clock runs roles.baseline.0 overlap measured;
      } in
    subst (IsDifferential reals seconds runs) (ok-injective r₆) found
