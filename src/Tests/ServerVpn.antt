-- ===== src/Tests/ServerVpn.antt =====
-- The theorems about the VPN differential at small runs.
use zygveil.Base.{
  ℕ, ◌+◌, ◌-◌, ◌*◌, String, ◌≡◌, refl, Bool, true, false, ◌==◌, none, some, [], ◌∷◌, ltb, ok,
  lookup, if◌then◌else◌, insert, insert_by, sort_by, count_chars, join, replace_after, replace_text,
  starts_with, arith,
}
use zygveil.Json.{bool, int, text, obj, Fields, end, field, entries, fields}
use zygveil.Json.Same.{Reals, same}
use zygveil.ServerVpn.Records.{
  Item, Run, Seconds, require_identity, role_mismatch, run_mismatch, detector_records,
  collect_detectors, overlap_ms, run_interval,
}
use zygveil.ServerVpn.Clock.{IsClock}
use zygveil.ServerVpn.Differential.{
  Runs, Verdict, evaluate_differential, evaluate_diagnostics_residual, identify, check_roles,
  check_catalogs, check_catalog, check_phases, compare_runs, check_projections, measure_overlap,
  check_residual_roles, require_diagnostics_residual,
}
use zygveil.ServerVpn.Differential.Identified.{AreIdentified}
use zygveil.ServerVpn.Differential.Sound.{IsDifferential, evaluate_differential_sound}
use zygveil.ServerVpn.Differential.Residual.{AreResidual, evaluate_diagnostics_residual_sound}
use zygveil.ServerVpn.Phase.{require_phase, check_source, mandatory_of, check_stock, check_target}
use zygveil.Json.Print.{braced, dumps, escape, escaped, more_members, quoted, show, sort_keys}
use zygveil.RebootIntent.Disk.{ends_with}
use zygveil.ServerVpn.Projection.{
  differing_test_ids, normalize_fields, observe_inventory, observe_plain, project_record,
  project_records, same_projection, stable_observation, stable_run_projection,
  volatile_network_inventory_test_ids,
}

-- Literals compare by their spelling.
abbrev reals : Reals
reals = record { equal = λ a b. a == b; is_whole = λ s negative n. false }

-- Whole seconds.
abbrev seconds : Seconds
seconds = record {
  Time = ℕ;
  timestamp = λ s. if s == "2026-07-16T10:00:00+00:00" then some 100 else none;
  of_int = λ n. n;
  plus = λ a b. a + b;
  minus = λ a b. a - b;
  times = λ a b. a * b;
  over = λ a b. 5;
  less = ltb;
  truncate = λ n. n;
}

abbrev base : String → String → String → Bool → Item
base kind variant group module_expected =
    ("schema_version", int 2)
    ∷ ("record_type", text kind)
    ∷ ("variant", text variant)
    ∷ ("process", text "dev.zygveil.probe")
    ∷ ("vpn_expected", bool true)
    ∷ ("module_expected", bool module_expected)
    ∷ ("group", text group)
    ∷ ("started_at", text "2026-07-16T10:00:00Z")
    ∷ ("elapsed_ms", int 5000)
    ∷ []

abbrev summary : String → String → Bool → Item
summary variant group module_expected =
    ("status", text "INCONCLUSIVE") ∷ base "summary" variant group module_expected

abbrev run : String → Bool → String → String → Bool → Run
run variant module_expected status outcome vpn =
    (("test_id", text "sync.active.transport.vpn")
      ∷ ("mandatory", bool true)
      ∷ ("status", text status)
      ∷ ("projection_outcome", text outcome)
      ∷ ("raw_observations", obj (field "vpn_transport" (bool vpn) end))
      ∷ base "detector" variant "server-vpn-async" module_expected)
    ∷ summary variant "server-vpn-async" module_expected
    ∷ []

abbrev four : Runs
four = record {
  baseline = run "primary" false "POSITIVE" "present_stock" true;
  active_target = run "primary" true "NEGATIVE" "present_sanitized" false;
  active_canary = run "canary" true "POSITIVE" "present_stock" true;
  rollback = run "primary" false "POSITIVE" "present_stock" true;
}

abbrev verdict : Verdict
verdict = record {
  group = "server-vpn-async";
  process_role = "main";
  detector_count = 1;
  overlap_ms = 5000;
  overlap_required = true;
}

passed : evaluate_differential reals seconds four ≡ ok verdict
unfolding evaluate_differential identify require_identity role_mismatch same run_mismatch
    check_roles check_catalogs detector_records insert check_catalog check_phases require_phase
    check_source mandatory_of check_stock check_target compare_runs lookup insert_by sort_by
    count_chars join replace_after replace_text starts_with braced dumps escape escaped more_members
    quoted show sort_keys entries fields ends_with check_projections measure_overlap
    differing_test_ids normalize_fields observe_inventory observe_plain project_record
    project_records same_projection stable_observation stable_run_projection
    volatile_network_inventory_test_ids collect_detectors overlap_ms run_interval
passed = refl

seconds-IsClock : IsClock seconds
seconds-IsClock = record {
  irreflexive = λ a. ground arith;
  transitive = λ a b c h k. ground arith;
  comparable = λ a b c h. ground arith;
  positive_minus = λ a b h. ground arith;
  positive_truncate = λ a h. ground arith;
}

evaluate_differential_sound_example : IsDifferential reals seconds four verdict
evaluate_differential_sound_example =
    evaluate_differential_sound reals seconds four verdict seconds-IsClock passed

abbrev detector : String → Bool → String → Fields → String → Bool → Item
detector id mandatory status observation variant module_expected =
    ("test_id", text id)
    ∷ ("mandatory", bool mandatory)
    ∷ ("status", text status)
    ∷ ("raw_observations", obj (field "comparison" (obj observation) end))
    ∷ base "detector" variant "server-vpn-diagnostics" module_expected

abbrev no_delivery : Fields
no_delivery = field "delivery_count" (int 0) (
    field "network_present_count" (int 0) (
      field "capabilities_present_count" (int 0) (
        field "link_properties_present_count" (int 0)
          (field "vpn_transport_count" (int 0) (field "not_vpn_capability_count" (int 0) end)))))

abbrev quiet : String → Bool → Run
quiet variant module_expected =
    detector "diagnostics.lifecycle" true "NEGATIVE"
      (field "registered" (bool true) (field "delivery_observed" (bool false) end)) variant
      module_expected
    ∷ detector "diagnostics.connectivity_report" true "INCONCLUSIVE" no_delivery variant
        module_expected
    ∷ detector "diagnostics.data_stall_report" false "INCONCLUSIVE" no_delivery variant
        module_expected
    ∷ detector "diagnostics.connectivity_result" false "INCONCLUSIVE"
        (field "delivery_count" (int 0) (field "reported_connected_count" (int 0) end)) variant
        module_expected
    ∷ summary variant "server-vpn-diagnostics" module_expected
    ∷ []

abbrev silent : Runs
silent = record {
  baseline = quiet "primary" false;
  active_target = quiet "primary" true;
  active_canary = quiet "canary" true;
  rollback = quiet "primary" false;
}

unchanged : evaluate_diagnostics_residual reals silent ≡ ok ("main", 4)
unfolding evaluate_diagnostics_residual identify require_identity role_mismatch same run_mismatch
    check_residual_roles require_diagnostics_residual detector_records insert stable_run_projection
    project_records project_record stable_observation volatile_network_inventory_test_ids
    same_projection
unchanged = refl

evaluate_diagnostics_residual_sound_example :
    AreIdentified reals silent "server-vpn-diagnostics" "main" × AreResidual reals silent
evaluate_diagnostics_residual_sound_example =
    evaluate_diagnostics_residual_sound reals silent "main" 4 unchanged
