-- ===== src/ServerVpn/Differential/Identified.antt =====
-- Who the four runs of a differential of tools/automation/server_vpn_oracle.py are.
use zygveil.Base.{
  String, ◌≡◌, ◌≢◌, refl, ap, subst, ◌∙◌, Bool, true, false, Dict, ok, >>=-eq-ok, reject->>-eq-ok,
  reject-eq-ok, ok-injective, eq_iff, arith,
}
use zygveil.Json.Same.{Reals}
use zygveil.ServerVpn.Records.{Item, Run, detector_records, require_identity}
use zygveil.ServerVpn.Identity.{IsRun, require_identity-IsRun, IsRun-group}
use zygveil.ServerVpn.Phase.{require_phase}
use zygveil.ServerVpn.Phase.Signals.{Shows, require_phase-Shows}
use zygveil.ServerVpn.Differential.{Runs, Roles, not_one, identify, check_roles}

-- All four have one group and one process role.
abbrev pub IsRole : Roles → String → String → Type 0
IsRole r group role =
    (r.baseline ≡ (group, role))
    × (r.target ≡ (group, role))
    × (r.canary ≡ (group, role))
    × (r.rollback ≡ (group, role))

same_text : (a b c d : String) → not_one a b c d ≡ false → (a ≡ b) × (a ≡ c) × (a ≡ d)
same_text a b c d h =
    (ground (arith, eq_iff a b), ground (arith, eq_iff a c), ground (arith, eq_iff a d))

pair_eq : (p : String × String) (a b : String) → a ≡ p.0 → b ≡ p.1 → p ≡ (a, b)
pair_eq (x, y) a b e f = cc

check_roles-IsRole : (r : Roles) → check_roles r ≡ ok tt → IsRole r r.baseline.0 r.baseline.1
unfolding check_roles
check_roles-IsRole r h =
    let (groups, rest) =
      reject->>-eq-ok (not_one r.baseline.0 r.target.0 r.canary.0 r.rollback.0) _ _ h in
    let roles = reject-eq-ok (not_one r.baseline.1 r.target.1 r.canary.1 r.rollback.1) _ rest in
    let (g₁, g₂, g₃) = same_text _ _ _ _ groups in
    let (p₁, p₂, p₃) = same_text _ _ _ _ roles in
    (refl, pair_eq r.target _ _ g₁ p₁, pair_eq r.canary _ _ g₂ p₂, pair_eq r.rollback _ _ g₃ p₃)

-- The four runs: all of one group and one process role, each of its variant and with the module off or on.
pub record AreIdentified (reals : Reals) (runs : Runs) (group role : String) : Type 0 where
  pub baseline : IsRun reals runs.baseline "primary" false group role
  pub target : IsRun reals runs.active_target "primary" true group role
  pub canary : IsRun reals runs.active_canary "canary" true group role
  pub rollback : IsRun reals runs.rollback "primary" false group role

pub identify-AreIdentified :
    (reals : Reals) (runs : Runs) (roles : Roles)
    → identify reals runs ≡ ok roles
    → check_roles roles ≡ ok tt
    → AreIdentified reals runs roles.baseline.0 roles.baseline.1
unfolding identify
identify-AreIdentified reals runs roles h one =
    let (b, e₁, r₁) = >>=-eq-ok (require_identity reals runs.baseline "primary" false) _ h in
    let (t, e₂, r₂) = >>=-eq-ok (require_identity reals runs.active_target "primary" true) _ r₁ in
    let (c, e₃, r₃) = >>=-eq-ok (require_identity reals runs.active_canary "canary" true) _ r₂ in
    let (k, e₄, r₄) = >>=-eq-ok (require_identity reals runs.rollback "primary" false) _ r₃ in
    let same : record { baseline = b; target = t; canary = c; rollback = k } ≡ roles =
      ok-injective r₄ in
    let (_, target, canary, rollback) = check_roles-IsRole roles one in
    record {
      baseline =
          require_identity-IsRun reals runs.baseline "primary" false roles.baseline.0
            roles.baseline.1
            (subst (λ x. require_identity reals runs.baseline "primary" false ≡ ok x)
              (ap (λ (x : Roles). x.baseline) same) e₁);
      target =
          require_identity-IsRun reals runs.active_target "primary" true roles.baseline.0
            roles.baseline.1
            (subst (λ x. require_identity reals runs.active_target "primary" true ≡ ok x)
              (ap (λ (x : Roles). x.target) same ∙ target) e₂);
      canary =
          require_identity-IsRun reals runs.active_canary "canary" true roles.baseline.0
            roles.baseline.1
            (subst (λ x. require_identity reals runs.active_canary "canary" true ≡ ok x)
              (ap (λ (x : Roles). x.canary) same ∙ canary) e₃);
      rollback =
          require_identity-IsRun reals runs.rollback "primary" false roles.baseline.0
            roles.baseline.1
            (subst (λ x. require_identity reals runs.rollback "primary" false ≡ ok x)
              (ap (λ (x : Roles). x.rollback) same ∙ rollback) e₄);
    }

-- The phases, for a group that is not the link group.
pub phase-Shows :
    (reals : Reals) (records : Run) (variant : String) (expected target_active : Bool)
    (group role : String)
    → IsRun reals records variant expected group role
    → require_phase records target_active ≡ ok tt
    → group ≢ "server-vpn-link"
    → (d : Dict Item) × (detector_records records ≡ ok d) × Shows target_active d
phase-Shows reals records variant expected target_active group role identity h other =
    require_phase-Shows records target_active identity.first group h identity.top
      (IsRun-group reals records variant expected group role identity) other
