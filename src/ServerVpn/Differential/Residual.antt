-- ===== src/ServerVpn/Differential/Residual.antt =====
-- What a passed diagnostics residual of tools/automation/server_vpn_oracle.py says of the four runs.
use zygveil.Base.{
  ℕ, String, ◌≡◌, refl, sym, ap, subst, true, false, not, ◌||◌, ◌==◌, Option, none, some, Dict,
  keys, lookup, any, has_exactly, ok, >>=-eq-ok, >>-eq-ok, reject->>-eq-ok, reject-eq-ok,
  ok-injective, not-eq-false, eq_iff, arith,
}
use zygveil.Json.{Json, text, is_str}
use zygveil.Json.Same.{Reals}
use zygveil.ServerVpn.Identity.{is_str-text}
use zygveil.ServerVpn.Records.{Item, Run, detector_records, summary_of}
use zygveil.ServerVpn.Projection.{stable_run_projection, same_projection}
use zygveil.ServerVpn.Differential.{
  Runs, Roles, not_one, diagnostics_mandatory, diagnostics_residual_projection, mandatory_differs,
  inconclusive_summary, identify, check_roles, check_residual_roles, require_diagnostics_residual,
  evaluate_diagnostics_residual,
}
use zygveil.ServerVpn.Differential.Identified.{AreIdentified, identify-AreIdentified}
use zygveil.ServerVpn.Differential.Diagnostics.{AreDiagnostics, diagnostics_of}

-- A run of the four diagnostics detectors that have seen nothing.
pub record IsResidual (reals : Reals) (records : Run) : Type 0 where
  pub detectors : Dict Item
  pub projection : Dict Json
  pub summary : Item
  pub collected : detector_records records ≡ ok detectors
  pub diagnostics : AreDiagnostics detectors
  pub projected : stable_run_projection records ≡ ok projection
  pub constant : same_projection reals projection diagnostics_residual_projection ≡ true
  pub summarised : summary_of records ≡ some summary
  pub inconclusive : lookup "status" summary ≡ some (text "INCONCLUSIVE")

inconclusive_summary-some :
    (o : Option Item)
    → inconclusive_summary o ≡ true
    → (r : Item) × (o ≡ some r) × (is_str (lookup "status" r) "INCONCLUSIVE" ≡ true)
inconclusive_summary-some none h = absurd (ground arith)
inconclusive_summary-some (some r) h = (r, refl, h)

require-IsResidual :
    (reals : Reals) (records : Run)
    → require_diagnostics_residual reals records ≡ ok tt
    → IsResidual reals records
unfolding require_diagnostics_residual
require-IsResidual reals records h =
    let (d, e, r₁) = >>=-eq-ok (detector_records records) _ h in
    let (catalog, r₂) = reject->>-eq-ok (not (has_exactly d (keys diagnostics_mandatory))) _ _ r₁ in
    let (metadata, r₃) = reject->>-eq-ok (any (mandatory_differs diagnostics_mandatory) d) _ _ r₂ in
    let (p, f, r₄) = >>=-eq-ok (stable_run_projection records) _ r₃ in
    let (same, r₅) =
      reject->>-eq-ok (not (same_projection reals p diagnostics_residual_projection)) _ _ r₄ in
    let ended = reject-eq-ok (not (inconclusive_summary (summary_of records))) _ r₅ in
    let (s, top, inconclusive) =
      inconclusive_summary-some (summary_of records) (not-eq-false _ ended) in
    record {
      detectors = d;
      projection = p;
      summary = s;
      collected = e;
      diagnostics =
          diagnostics_of reals records d p e f (not-eq-false _ same) metadata
            (not-eq-false _ catalog);
      projected = f;
      constant = not-eq-false _ same;
      summarised = top;
      inconclusive = is_str-text (lookup "status" s) "INCONCLUSIVE" inconclusive;
    }

-- The stricter test of the roles gives what the differential asks of them.
check_residual_roles-check_roles :
    (r : Roles)
    → check_residual_roles r ≡ ok tt
    → (check_roles r ≡ ok tt) × (r.baseline.0 ≡ "server-vpn-diagnostics")
unfolding check_residual_roles check_roles
check_residual_roles-check_roles r h =
    let (groups, rest) =
      reject->>-eq-ok
        (not_one "server-vpn-diagnostics" r.baseline.0 r.target.0 r.canary.0
          || not ("server-vpn-diagnostics" == r.rollback.0))
        _ _ h in
    let roles = reject-eq-ok (not_one r.baseline.1 r.target.1 r.canary.1 r.rollback.1) _ rest in
    let b : "server-vpn-diagnostics" ≡ r.baseline.0 =
      ground (arith, eq_iff "server-vpn-diagnostics" r.baseline.0) in
    let one : not_one r.baseline.0 r.target.0 r.canary.0 r.rollback.0 ≡ false =
      subst (λ x. not_one x r.target.0 r.canary.0 r.rollback.0 ≡ false) b (ground arith) in
    (rw (one, roles), sym b)

-- The four runs of a diagnostics residual.
pub record AreResidual (reals : Reals) (runs : Runs) : Type 0 where
  pub baseline : IsResidual reals runs.baseline
  pub target : IsResidual reals runs.active_target
  pub canary : IsResidual reals runs.active_canary
  pub rollback : IsResidual reals runs.rollback

-- A diagnostics residual that passes stands for four runs. Every record of them names the diagnostics
-- group, one process for its run, the variant of the run, a VPN, and the module off or on as announced,
-- and the processes have one role. Each run has the four diagnostics detectors and no other: the
-- lifecycle, mandatory and negative, the connectivity report, mandatory and inconclusive, and the other
-- two, not mandatory and inconclusive. It has the projection of a system that reports nothing, and its
-- summary is inconclusive.
pub evaluate_diagnostics_residual_sound :
    (reals : Reals) (runs : Runs) (role : String) (count : ℕ)
    → evaluate_diagnostics_residual reals runs ≡ ok (role, count)
    → AreIdentified reals runs "server-vpn-diagnostics" role × AreResidual reals runs
unfolding evaluate_diagnostics_residual
evaluate_diagnostics_residual_sound reals runs role count h =
    let (roles, named, r₁) = >>=-eq-ok (identify reals runs) _ h in
    let (one, r₂) = >>-eq-ok (check_residual_roles roles) _ r₁ in
    let (b, r₃) = >>-eq-ok (require_diagnostics_residual reals runs.baseline) _ r₂ in
    let (t, r₄) = >>-eq-ok (require_diagnostics_residual reals runs.active_target) _ r₃ in
    let (c, r₅) = >>-eq-ok (require_diagnostics_residual reals runs.active_canary) _ r₄ in
    let (k, r₆) = >>-eq-ok (require_diagnostics_residual reals runs.rollback) _ r₅ in
    let (roles_one, group) = check_residual_roles-check_roles roles one in
    let identified = identify-AreIdentified reals runs roles named roles_one in
    let known : AreIdentified reals runs "server-vpn-diagnostics" roles.baseline.1 =
      subst (λ x. AreIdentified reals runs x roles.baseline.1) group identified in
    (
      subst (λ x. AreIdentified reals runs "server-vpn-diagnostics" x)
          (ap (λ (x : String × ℕ). x.0) (ok-injective r₆)) known,
      record {
        baseline = require-IsResidual reals runs.baseline b;
        target = require-IsResidual reals runs.active_target t;
        canary = require-IsResidual reals runs.active_canary c;
        rollback = require-IsResidual reals runs.rollback k;
      },
    )
