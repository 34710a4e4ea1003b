-- ===== src/ServerVpn/Identity.antt =====
-- Whose run `require_identity` of tools/automation/server_vpn_oracle.py accepts.
use zygveil.Base.{
  String, ◌≡◌, ◌≢◌, refl, sym, ap, subst, ◌⊎◌, inl, inr, Bool, Bool-cases, true, false, not, ◌||◌,
  Option, none, some, [], ◌∷◌, All, lookup, any, starts_with, ok, >>=-eq-ok, reject->>-eq-ok,
  ok-injective, eq_iff, if◌then◌else◌, arith,
}
use zygveil.RebootIntent.Disk.{ends_with}
use zygveil.Json.{Json, bool, int, text, is_str, as_str}
use zygveil.Json.Same.{Reals, is_same}
use zygveil.ServerVpn.Records.{
  Item, Run, is_bool, first_of, role_mismatch, run_mismatch, valid_group, valid_process,
  require_identity,
}

-- What a record says of the run that it belongs to.
pub record Says (group process variant : String) (expected : Bool) (r : Item) : Type 0 where
  pub group_said : lookup "group" r ≡ some (text group)
  pub variant_said : lookup "variant" r ≡ some (text variant)
  pub process_said : lookup "process" r ≡ some (text process)
  pub vpn_said : lookup "vpn_expected" r ≡ some (bool true)
  pub module_said : lookup "module_expected" r ≡ some (bool expected)

-- A run of one group, process and variant, with the module as announced.
pub record IsRun (reals : Reals) (records : Run) (variant : String) (expected : Bool)
    (group role : String) : Type 0 where
  pub first : Item
  pub process : String
  pub top : first_of records ≡ ok first
  pub schema : is_same reals (lookup "schema_version" first) (int 2) ≡ true
  pub grouped : starts_with "server-vpn-" group ≡ true
  pub named : process ≢ ""
  pub plays :
      ((ends_with ":secondary" process ≡ true) × (role ≡ "secondary"))
      ⊎ ((ends_with ":secondary" process ≡ false) × (role ≡ "main"))
  pub every : All (Says group process variant expected) records

pub is_str-text : (o : Option Json) (s : String) → is_str o s ≡ true → o ≡ some (text s)
is_str-text (some (text t)) s h = ap (λ x. some (text x)) ((eq_iff t s).0 h)
is_str-text (some other) s h = absurd (ground arith)
is_str-text none s h = absurd (ground arith)

pub is_bool-bool : (o : Option Json) (b : Bool) → is_bool o b ≡ true → o ≡ some (bool b)
is_bool-bool (some (bool true)) true h = refl
is_bool-bool (some (bool false)) false h = refl
is_bool-bool (some (bool true)) false h = absurd (ground arith)
is_bool-bool (some (bool false)) true h = absurd (ground arith)
is_bool-bool (some other) b h = absurd (ground arith)
is_bool-bool none b h = absurd (ground arith)

none_of_five :
    (a b c d e : Bool)
    → (not a || not b || not c || not d || not e) ≡ false
    → (a ≡ true) × (b ≡ true) × (c ≡ true) × (d ≡ true) × (e ≡ true)
none_of_five a b c d e h = (ground arith, ground arith, ground arith, ground arith, ground arith)

run_mismatch-Says :
    (group process variant : String) (expected : Bool) (r : Item)
    → run_mismatch group process variant expected r ≡ false
    → Says group process variant expected r
unfolding run_mismatch
run_mismatch-Says group process variant expected r h =
    let (g, v, p, w, m) =
      none_of_five (is_str (lookup "group" r) group) (is_str (lookup "variant" r) variant)
        (is_str (lookup "process" r) process) (is_bool (lookup "vpn_expected" r) true)
        (is_bool (lookup "module_expected" r) expected) h in
    record {
      group_said = is_str-text (lookup "group" r) group g;
      variant_said = is_str-text (lookup "variant" r) variant v;
      process_said = is_str-text (lookup "process" r) process p;
      vpn_said = is_bool-bool (lookup "vpn_expected" r) true w;
      module_said = is_bool-bool (lookup "module_expected" r) expected m;
    }

All-say :
    (group process variant : String) (expected : Bool) (records : Run)
    → any (run_mismatch group process variant expected) records ≡ false
    → All (Says group process variant expected) records
All-say group process variant expected [] h = tt
All-say group process variant expected (r ∷ rs) h = (
  run_mismatch-Says group process variant expected r (ground arith),
  All-say group process variant expected rs (ground arith),
)

schema_of : (a b c d : Bool) → (not a || not b || not c || not d) ≡ false → a ≡ true
schema_of a b c d h = ground arith

role_mismatch-schema :
    (reals : Reals) (r : Item) (variant : String) (expected : Bool)
    → role_mismatch reals r variant expected ≡ false
    → is_same reals (lookup "schema_version" r) (int 2) ≡ true
unfolding role_mismatch
role_mismatch-schema reals r variant expected h =
    schema_of (is_same reals (lookup "schema_version" r) (int 2))
      (is_str (lookup "variant" r) variant) (is_bool (lookup "vpn_expected" r) true)
      (is_bool (lookup "module_expected" r) expected) h

valid_group-starts :
    (o : Option String) (g : String) → valid_group o ≡ ok g → starts_with "server-vpn-" g ≡ true
valid_group-starts none g h = absurd (ground arith)
valid_group-starts (some s) g h = elim (Bool-cases (starts_with "server-vpn-" s)) [
  | inl prefixed ↦
      subst (λ x. starts_with "server-vpn-" x ≡ true) (ok-injective (rw prefixed at h)) prefixed
  | inr other ↦ absurd (ground arith)
]

valid_process-filled : (o : Option String) (p : String) → valid_process o ≡ ok p → p ≢ ""
valid_process-filled none p h = absurd (ground arith)
valid_process-filled (some s) p h = λ empty. ground (arith, eq_iff s "")

role_of :
    (process role : String)
    → (if ends_with ":secondary" process then "secondary" else "main") ≡ role
    → ((ends_with ":secondary" process ≡ true) × (role ≡ "secondary"))
      ⊎ ((ends_with ":secondary" process ≡ false) × (role ≡ "main"))
role_of process role h = elim (Bool-cases (ends_with ":secondary" process)) [
  | inl secondary ↦ inl (secondary, sym (rw secondary at h))
  | inr main ↦ inr (main, sym (rw main at h))
]

pub require_identity-IsRun :
    (reals : Reals) (records : Run) (variant : String) (expected : Bool) (group role : String)
    → require_identity reals records variant expected ≡ ok (group, role)
    → IsRun reals records variant expected group role
unfolding require_identity
require_identity-IsRun reals records variant expected group role h =
    let (first, top, r₁) = >>=-eq-ok (first_of records) _ h in
    let (roles, r₂) = reject->>-eq-ok (role_mismatch reals first variant expected) _ _ r₁ in
    let (g, named, r₃) = >>=-eq-ok (valid_group (as_str (lookup "group" first))) _ r₂ in
    let (p, valid, r₄) = >>=-eq-ok (valid_process (as_str (lookup "process" first))) _ r₃ in
    let (runs, r₅) = reject->>-eq-ok (any (run_mismatch g p variant expected) records) _ _ r₄ in
    let whole : (g, if ends_with ":secondary" p then "secondary" else "main") ≡ (group, role) =
      ok-injective r₅ in
    let same : g ≡ group = ap (λ (x : String × String). x.0) whole in
    record {
      first = first;
      process = p;
      top = top;
      schema = role_mismatch-schema reals first variant expected roles;
      grouped =
          subst (λ x. starts_with "server-vpn-" x ≡ true) same
            (valid_group-starts (as_str (lookup "group" first)) g named);
      named = valid_process-filled (as_str (lookup "process" first)) p valid;
      plays = role_of p role (ap (λ (x : String × String). x.1) whole);
      every =
          subst (λ x. All (Says x p variant expected) records) same
            (All-say g p variant expected records runs);
    }

first_of-All {κ} :
    (P : Item → Type κ) (records : Run) (first : Item)
    → first_of records ≡ ok first
    → All P records
    → P first
first_of-All P [] first e h = absurd (ground arith)
first_of-All P (r ∷ rs) first e h = subst P (ok-injective e) h.0

-- A run names its group in its first record.
pub IsRun-group :
    (reals : Reals) (records : Run) (variant : String) (expected : Bool) (group role : String)
    (i : IsRun reals records variant expected group role)
    → lookup "group" i.first ≡ some (text group)
IsRun-group reals records variant expected group role i =
    (first_of-All (Says group i.process variant expected) records i.first i.top i.every).group_said
