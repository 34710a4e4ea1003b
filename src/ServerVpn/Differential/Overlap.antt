-- ===== src/ServerVpn/Differential/Overlap.antt =====
-- What `evaluate_differential` of tools/automation/server_vpn_oracle.py has measured of the intervals of
-- target and canary.
use zygveil.Base.{
  ℕ, ◌<◌, String, ◌≡◌, sym, subst, ◌⊎◌, true, ◌&&◌, contains, eqb, ok, >>=-eq-ok, reject->>-eq-ok,
  ok-injective, eq_iff, arith,
}
use zygveil.ServerVpn.Records.{Seconds, run_interval, overlap_ms}
use zygveil.ServerVpn.Clock.{IsClock, overlap_ms-less}
use zygveil.ServerVpn.Differential.{Runs, callback_groups, measure_overlap}

-- A group in which target and canary have to run at the same time.
abbrev pub IsCallback : String → Type 0
IsCallback group =
    (group ≡ "server-vpn-active") ⊎ (group ≡ "server-vpn-async") ⊎ (group ≡ "server-vpn-link")

callback_groups-IsCallback :
    (group : String) → IsCallback group → contains callback_groups group ≡ true
callback_groups-IsCallback group h = ground (
  arith,
  eq_iff group "server-vpn-active",
  eq_iff group "server-vpn-async",
  eq_iff group "server-vpn-link",
)

-- The intervals of target and canary, and what is measured of them. In a callback group each of the two
-- begins before the other ends.
pub record IsMeasured (seconds : Seconds) (runs : Runs) (group : String) (overlap : ℕ)
    : Type 0 where
  pub target : seconds.Time × seconds.Time
  pub canary : seconds.Time × seconds.Time
  pub of_target : run_interval seconds runs.active_target ≡ ok target
  pub of_canary : run_interval seconds runs.active_canary ≡ ok canary
  pub measured : overlap ≡ overlap_ms seconds target canary
  pub positive : IsCallback group → 0 < overlap
  pub overlapped :
      IsCallback group
      → (seconds.less target.0 canary.1 ≡ true) × (seconds.less canary.0 target.1 ≡ true)

pub measure_overlap-IsMeasured :
    (seconds : Seconds) (clock : IsClock seconds) (runs : Runs) (group : String) (overlap : ℕ)
    → measure_overlap seconds runs group ≡ ok overlap
    → IsMeasured seconds runs group overlap
unfolding measure_overlap
measure_overlap-IsMeasured seconds clock runs group overlap h =
    let (t, e, r₁) = >>=-eq-ok (run_interval seconds runs.active_target) _ h in
    let (c, f, r₂) = >>=-eq-ok (run_interval seconds runs.active_canary) _ r₁ in
    let (guarded, r₃) =
      reject->>-eq-ok (contains callback_groups group && eqb (overlap_ms seconds t c) 0) _
        (ok (overlap_ms seconds t c)) r₂ in
    let positive : IsCallback group → 0 < overlap_ms seconds t c =
      λ callback. ground (arith, callback_groups-IsCallback group callback) in
    record {
      target = t;
      canary = c;
      of_target = e;
      of_canary = f;
      measured = sym (ok-injective r₃);
      positive = λ callback. subst (λ x. 0 < x) (ok-injective r₃) (positive callback);
      overlapped = λ callback. overlap_ms-less seconds clock t c (positive callback);
    }
