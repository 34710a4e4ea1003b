-- ===== src/ServerVpn/Differential.antt =====
-- `evaluate_differential`, `require_diagnostics_residual` and `evaluate_diagnostics_residual` of
-- tools/automation/server_vpn_oracle.py.
pub mod Identified
pub mod Overlap
pub mod Sound
pub mod Statuses
pub mod Diagnostics
pub mod Residual
use zygveil.Base.{
  ℕ, String, Bool, true, false, not, ◌&&◌, ◌||◌, ◌==◌, Option, none, some, List, [], ◌∷◌, Dict,
  keys, lookup, any, contains, has_exactly, length, eqb, join, Result, ok, err, ◌>>=◌, ◌>>◌, reject,
  if◌then◌else◌,
}
use zygveil.Json.{Json, bool, int, text, obj, Fields, end, field, is_str}
use zygveil.Json.Same.{Reals}
use zygveil.ServerVpn.Records.{
  Item, Run, is_bool, detector_records, summary_of, Seconds, require_identity, run_interval,
  overlap_ms,
}
use zygveil.ServerVpn.Projection.{stable_run_projection, same_projection, differing_test_ids}
use zygveil.ServerVpn.Phase.{require_phase}

abbrev pub callback_groups : List String
callback_groups = "server-vpn-active" ∷ "server-vpn-async" ∷ "server-vpn-link" ∷ []

-- The four runs.
pub record Runs : Type 0 where
  pub baseline : Run
  pub active_target : Run
  pub active_canary : Run
  pub rollback : Run

abbrev pub comma_separated : List String → String
comma_separated [] = ""
comma_separated (a ∷ []) = a
comma_separated (a ∷ b ∷ more) = join a (join "," (comma_separated (b ∷ more)))

-- `len({a, b, c, d}) != 1`
abbrev pub not_one : String → String → String → String → Bool
not_one a b c d = not (a == b && a == c && a == d)

-- The group and the role of the process.
abbrev pub Role : Type 0
Role = String × String

pub record Roles : Type 0 where
  pub baseline : Role
  pub target : Role
  pub canary : Role
  pub rollback : Role

unfoldable pub check_catalog : Dict Item → Run → Result (Unit {0})
check_catalog baseline records = do
  detectors ← detector_records records
  reject (not (has_exactly detectors (keys baseline))) "server-VPN differential catalogs differ"

-- What a passed differential reports.
pub record Verdict : Type 0 where
  pub group : String
  pub process_role : String
  pub detector_count : ℕ
  pub overlap_ms : ℕ
  pub overlap_required : Bool

unfoldable pub check_roles : Roles → Result (Unit {0})
check_roles r = do
  reject (not_one r.baseline.0 r.target.0 r.canary.0 r.rollback.0)
      "server-VPN differential groups differ"
  reject (not_one r.baseline.1 r.target.1 r.canary.1 r.rollback.1)
      "server-VPN differential process roles differ"

-- The ids of the baseline.
unfoldable pub check_catalogs : Runs → Result (Dict Item)
check_catalogs runs = do
  baseline ← detector_records runs.baseline
  check_catalog baseline runs.active_target
  check_catalog baseline runs.active_canary
  check_catalog baseline runs.rollback
  ok baseline

unfoldable pub check_phases : Runs → Result (Unit {0})
check_phases runs = do
  require_phase runs.baseline false
  require_phase runs.active_target true
  require_phase runs.active_canary false
  require_phase runs.rollback false

unfoldable pub measure_overlap : Seconds → Runs → String → Result ℕ
measure_overlap seconds runs group = do
  target ← run_interval seconds runs.active_target
  canary ← run_interval seconds runs.active_canary
  reject (contains callback_groups group && eqb (overlap_ms seconds target canary) 0)
      "active callback target/canary sessions did not overlap"
  ok (overlap_ms seconds target canary)

abbrev pub diagnostics_mandatory : Dict Bool
diagnostics_mandatory =
    ("diagnostics.lifecycle", true)
    ∷ ("diagnostics.connectivity_report", true)
    ∷ ("diagnostics.data_stall_report", false)
    ∷ ("diagnostics.connectivity_result", false)
    ∷ []

abbrev residual : String → Fields → Json
residual status observation =
    obj (field "status" (text status) (field "observation" (obj observation) end))

abbrev no_delivery : Fields
no_delivery = field "delivery_count" (int 0) (
    field "network_present_count" (int 0) (
      field "capabilities_present_count" (int 0) (
        field "link_properties_present_count" (int 0)
          (field "vpn_transport_count" (int 0) (field "not_vpn_capability_count" (int 0) end)))))

abbrev pub diagnostics_residual_projection : Dict Json
diagnostics_residual_projection =
    (
      "diagnostics.lifecycle",
      residual "NEGATIVE"
          (field "registered" (bool true) (field "delivery_observed" (bool false) end)),
    )
    ∷ ("diagnostics.connectivity_report", residual "INCONCLUSIVE" no_delivery)
    ∷ ("diagnostics.data_stall_report", residual "INCONCLUSIVE" no_delivery)
    ∷ (
      "diagnostics.connectivity_result",
      residual "INCONCLUSIVE"
          (field "delivery_count" (int 0) (field "reported_connected_count" (int 0) end)),
    )
    ∷ []

abbrev pub mandatory_differs : Dict Bool → String × Item → Bool
mandatory_differs expected (id, r) = elim (lookup id expected) [
  | none ↦ true
  | some b ↦ not (is_bool (lookup "mandatory" r) b)
]

abbrev pub inconclusive_summary : Option Item → Bool
inconclusive_summary none = false
inconclusive_summary (some r) = is_str (lookup "status" r) "INCONCLUSIVE"

unfoldable pub check_residual_roles : Roles → Result (Unit {0})
check_residual_roles r = do
  reject
      (not_one "server-vpn-diagnostics" r.baseline.0 r.target.0 r.canary.0
        || not ("server-vpn-diagnostics" == r.rollback.0))
      "server-VPN diagnostics residual group differs"
  reject (not_one r.baseline.1 r.target.1 r.canary.1 r.rollback.1)
      "server-VPN diagnostics residual process roles differ"

module _ (reals : Reals) where
  unfoldable pub identify : Runs → Result Roles
  identify runs = do
    baseline ← require_identity reals runs.baseline "primary" false
    target ← require_identity reals runs.active_target "primary" true
    canary ← require_identity reals runs.active_canary "canary" true
    rollback ← require_identity reals runs.rollback "primary" false
    ok (record { baseline = baseline; target = target; canary = canary; rollback = rollback })

  unfoldable pub check_projections :
      Dict Json → Dict Json → Dict Json → Dict Json → Result (Unit {0})
  unfolding join
  check_projections baseline target canary rollback = do
    reject (not (same_projection reals baseline canary)) (
        join "active canary differs from the stock public projection: "
          (comma_separated (differing_test_ids reals baseline canary)))
    reject (not (same_projection reals baseline rollback)) (
        join "post-disable projection did not return to stock: "
          (comma_separated (differing_test_ids reals baseline rollback)))
    reject (same_projection reals baseline target)
        "active target did not change any source-specific projection"

  unfoldable pub compare_runs : Runs → Result (Unit {0})
  compare_runs runs = do
    baseline ← stable_run_projection runs.baseline
    target ← stable_run_projection runs.active_target
    canary ← stable_run_projection runs.active_canary
    rollback ← stable_run_projection runs.rollback
    check_projections baseline target canary rollback

  unfoldable pub evaluate_differential : Seconds → Runs → Result Verdict
  evaluate_differential seconds runs = do
    roles ← identify runs
    check_roles roles
    baseline ← check_catalogs runs
    check_phases runs
    compare_runs runs
    overlap ← measure_overlap seconds runs roles.baseline.0
    ok (record {
      group = roles.baseline.0;
      process_role = roles.baseline.1;
      detector_count = length baseline;
      overlap_ms = overlap;
      overlap_required = contains callback_groups roles.baseline.0;
    })

  unfoldable pub require_diagnostics_residual : Run → Result (Unit {0})
  unfolding lookup
  require_diagnostics_residual records = do
    detectors ← detector_records records
    reject (not (has_exactly detectors (keys diagnostics_mandatory)))
        "server-VPN diagnostics residual catalog differs"
    reject (any (mandatory_differs diagnostics_mandatory) detectors)
        "server-VPN diagnostics residual mandatory metadata differs"
    projection ← stable_run_projection records
    reject (not (same_projection reals projection diagnostics_residual_projection))
        "server-VPN diagnostics residual projection differs"
    reject (not (inconclusive_summary (summary_of records)))
        "server-VPN diagnostics residual summary differs"

  -- The role of the process, and the number of detectors.
  unfoldable pub evaluate_diagnostics_residual : Runs → Result (String × ℕ)
  evaluate_diagnostics_residual runs = do
    roles ← identify runs
    check_residual_roles roles
    require_diagnostics_residual runs.baseline
    require_diagnostics_residual runs.active_target
    require_diagnostics_residual runs.active_canary
    require_diagnostics_residual runs.rollback
    ok (roles.baseline.1, length diagnostics_mandatory)
