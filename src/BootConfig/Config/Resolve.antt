-- ===== src/BootConfig/Config/Resolve.antt =====
-- What `resolve_boot_config` of tools/automation/location_device.py installs.
use zygveil.Base.{
  ℕ, ◌+◌, ◌<◌, String, ◌≡◌, refl, sym, ap, subst, ◌∙◌, Bool, true, false, not, ◌&&◌, ◌==◌, Option,
  none, some, List, [], ◌∷◌, all, contains, Dict, keys, has_exactly, has_key, lookup, insert,
  lookup-insert, item, item-lookup, leb, ok, >>=-eq-ok, >>-eq-ok, reject->>-eq-ok, ok-injective,
  not-eq-false, Bool-cases, &&-left, &&-right, inl, inr, eq_iff, eq_refl, arith,
}
use zygveil.Json.Print.{show}
use zygveil.BootConfig.{boot_input_keys, max_config_generation}
use zygveil.BootConfig.Config.{
  Floats, config_integer, same_entry, same_input, completed, validate_config, validate_boot_input,
  resolve_boot_config,
}

abbrev is_input : String → Bool
is_input k = not ("enabled" == k) && not ("config_generation" == k)

lookup-completed :
    (k : String) (d : Dict String) (enabled generation : String)
    → is_input k ≡ true
    → lookup k (completed d enabled generation) ≡ lookup k d
unfolding completed
lookup-completed k d enabled generation h = ground (
  arith,
  lookup-insert "config_generation" k generation (insert "enabled" enabled d),
  lookup-insert "enabled" k enabled d,
)

enabled_of_completed :
    (d : Dict String) (enabled generation : String)
    → lookup "enabled" (completed d enabled generation) ≡ some enabled
unfolding completed
enabled_of_completed d enabled generation =
    lookup-insert "config_generation" "enabled" generation (insert "enabled" enabled d)
    ∙ lookup-insert "enabled" "enabled" enabled d

generation_of_completed :
    (d : Dict String) (enabled generation : String)
    → lookup "config_generation" (completed d enabled generation) ≡ some generation
unfolding completed
generation_of_completed d enabled generation =
    lookup-insert "config_generation" "config_generation" generation (insert "enabled" enabled d)

has_key-lookup :
    (d : Dict String) (k : String) → has_key d k ≡ true → (v : String) × (lookup k d ≡ some v)
unfolding lookup
has_key-lookup [] k h = absurd (ground arith)
has_key-lookup ((j, v) ∷ d) k h = elim (Bool-cases (j == k)) [
  | inl same ↦ (v, rw same refl)
  | inr other ↦
      let (w, found) = has_key-lookup d k (ground (arith, eq_iff j k, eq_iff k j)) in
      (w, rw other found)
]

same_entry_self : (o : Option String) (v : String) → o ≡ some v → same_entry o o ≡ true
same_entry_self none v h = cc
same_entry_self (some w) v h = eq_refl w

same_entry-eq : (a b : Option String) → same_entry a b ≡ true → a ≡ b
same_entry-eq (some a) (some b) h = ap some ((eq_iff a b).0 h)
same_entry-eq (some a) none h = absurd (ground arith)
same_entry-eq none b h = absurd (ground arith)

-- The input of a completed request is that of the request.
same_input-completed :
    (ks : List String) (d : Dict String) (enabled generation : String)
    → all is_input ks ≡ true
    → all (has_key d) ks ≡ true
    → same_input ks d (completed d enabled generation) ≡ true
unfolding same_input
same_input-completed [] d enabled generation h k = refl
same_input-completed (x ∷ ks) d enabled generation h k =
    let (v, found) = has_key-lookup d x (&&-left _ _ k) in
    let same = lookup-completed x d enabled generation (&&-left _ _ h) in
    let head : same_entry (lookup x (completed d enabled generation)) (lookup x d) ≡ true =
      rw same (same_entry_self (lookup x d) v found) in
    let tail =
      same_input-completed ks d enabled generation (&&-right (is_input x) _ h)
        (&&-right (has_key d x) _ k) in
    rw head tail

same_input-lookup :
    (ks : List String) (requested current : Dict String) (k : String)
    → same_input ks requested current ≡ true
    → contains ks k ≡ true
    → lookup k current ≡ lookup k requested
unfolding same_input
same_input-lookup [] requested current k h m = cc
same_input-lookup (x ∷ ks) requested current k h m = elim (Bool-cases (k == x)) [
  | inl same ↦
      rw ((eq_iff k x).0 same)
        (same_entry-eq (lookup x current) (lookup x requested) (&&-left _ _ h))
  | inr other ↦
      same_input-lookup ks requested current k
        (&&-right (same_entry (lookup x current) (lookup x requested)) _ h) (rw other at m)
]

-- A configuration to install.
pub record IsResolved (floats : Floats) (requested current resolved : Dict String) (changed : Bool)
    : Type 0 where
  pub valid : validate_config floats resolved ≡ ok tt
  pub input :
      (k : String) → contains boot_input_keys k ≡ true → lookup k resolved ≡ lookup k requested
  pub enabled : lookup "enabled" resolved ≡ lookup "enabled" current
  pub kept : changed ≡ false → resolved ≡ current
  pub next :
      changed ≡ true
      → (g : Bool × ℕ) × (config_integer "config_generation" current ≡ ok g)
        × (g.1 < max_config_generation)
        × (lookup "config_generation" resolved ≡ some (show (g.1 + 1)))
  pub again : resolve_boot_config floats requested resolved ≡ ok (resolved, false)

module _ (floats : Floats) (requested : Dict String)
    (input : validate_boot_input floats requested ≡ ok tt) where
  -- Nothing changes if the input is there already.
  settled :
      (d : Dict String)
      → validate_config floats d ≡ ok tt
      → same_input boot_input_keys requested d ≡ true
      → resolve_boot_config floats requested d ≡ ok (d, false)
  unfolding resolve_boot_config
  settled d valid same = rw (input, valid, same) refl

  has_input : all (has_key requested) boot_input_keys ≡ true
  unfolding validate_boot_input
  has_input =
      let (exact, _) = reject->>-eq-ok (not (has_exactly requested boot_input_keys)) _ _ input in
      &&-right (all (contains boot_input_keys) (keys requested)) _ (not-eq-false _ exact)

  unchanged-IsResolved :
      (current : Dict String)
      → validate_config floats current ≡ ok tt
      → same_input boot_input_keys requested current ≡ true
      → IsResolved floats requested current current false
  unchanged-IsResolved current valid same = record {
    valid = valid;
    input = λ k listed. same_input-lookup boot_input_keys requested current k same listed;
    enabled = refl;
    kept = λ _. refl;
    next = λ changed. absurd (ground arith);
    again = settled current valid same;
  }

  completed-IsResolved :
      (current : Dict String) (enabled : String) (g : Bool × ℕ)
      → lookup "enabled" current ≡ some enabled
      → config_integer "config_generation" current ≡ ok g
      → leb max_config_generation g.1 ≡ false
      → validate_config floats (completed requested enabled (show (g.1 + 1))) ≡ ok tt
      → IsResolved floats requested current (completed requested enabled (show (g.1 + 1))) true
  completed-IsResolved current enabled g found generation room valid =
      let same =
        same_input-completed boot_input_keys requested enabled (show (g.1 + 1)) refl has_input in
      record {
        valid = valid;
        input = λ k listed.
            same_input-lookup boot_input_keys requested
              (completed requested enabled (show (g.1 + 1))) k same listed;
        enabled = enabled_of_completed requested enabled (show (g.1 + 1)) ∙ sym found;
        kept = λ unchanged. absurd (ground arith);
        next = λ _. (
          g,
          generation,
          ground arith,
          generation_of_completed requested enabled (show (g.1 + 1)),
        );
        again = settled (completed requested enabled (show (g.1 + 1))) valid same;
      }

-- What is to be installed is a valid configuration with the requested input, enabled as the present
-- one is. It is the present one, or the requested input of the next generation, if there is one. The
-- same request then finds nothing to change.
pub resolve_boot_config_sound :
    (floats : Floats) (requested current resolved : Dict String) (changed : Bool)
    → resolve_boot_config floats requested current ≡ ok (resolved, changed)
    → IsResolved floats requested current resolved changed
unfolding resolve_boot_config
resolve_boot_config_sound floats requested current resolved changed h =
    let (input, r₁) = >>-eq-ok (validate_boot_input floats requested) _ h in
    let (valid, r₂) = >>-eq-ok (validate_config floats current) _ r₁ in
    elim (Bool-cases (same_input boot_input_keys requested current)) [
      | inl same ↦
          subst (λ (x : Dict String × Bool). IsResolved floats requested current x.0 x.1)
            (ok-injective (rw same at r₂))
            (unchanged-IsResolved floats requested input current valid same)
      | inr other ↦
          let r₃ = rw other at r₂ in
          let (g, generation, r₄) = >>=-eq-ok (config_integer "config_generation" current) _ r₃ in
          let (room, r₅) = reject->>-eq-ok (leb max_config_generation g.1) _ _ r₄ in
          let (enabled, found, r₆) = >>=-eq-ok (item "enabled" current) _ r₅ in
          let (complete, r₇) =
            >>-eq-ok (validate_config floats (completed requested enabled (show (g.1 + 1)))) _ r₆ in
          subst (λ (x : Dict String × Bool). IsResolved floats requested current x.0 x.1)
            (ok-injective r₇)
            (completed-IsResolved floats requested input current enabled g
              (item-lookup "enabled" current enabled found) generation room complete)
    ]
