-- ===== src/BootConfig/Config/Rendered.antt =====
-- What `parse_properties` of tools/automation/location_device.py reads of what `render_config` wrote.
use zygveil.Base.{
  ℕ, suc, String, ◌≡◌, refl, sym, ap, subst, ◌∙◌, Bool, true, false, not, ◌&&◌, ◌||◌, ◌==◌, Option,
  none, some, some-injective, List, [], ◌∷◌, ◌++◌, All, all, contains, Dict, keys, has_exactly,
  has_key, lookup, lookup-insert, insert, insert-new, append_nil, append_assoc, item, item-lookup,
  join, strip, starts_with, split_once, splitlines, all_chars, is_inline, IsClean, strip-IsClean,
  all_chars-strip, all_chars-split_once, splitlines-inline, splitlines-join, is_name, IsField,
  join-IsField, is_line_end, ok, ◌>>=◌, ◌>>◌, reject, >>=-eq-ok, >>-eq-ok, reject->>-eq-ok,
  ok-injective, Bool-cases, &&-left, &&-right, inl, inr, eq_iff, eq_refl, arith,
}
use zygveil.Json.Members.{join_assoc}
use zygveil.BootConfig.{config_keys, mismatch, put_property, put_line, put_lines, read_properties}
use zygveil.BootConfig.Config.{Floats, validate_config, rendered, render_config}

abbrev AreClean : Dict String → Type 0
AreClean d = (k v : String) → lookup k d ≡ some v → IsClean v

insert-AreClean :
    (k v : String) (d : Dict String) → AreClean d → IsClean v → AreClean (insert k v d)
insert-AreClean k v d clean new j w h = elim (Bool-cases (k == j)) [
  | inl same ↦
      let found : some v ≡ some w = sym (rw same at (lookup-insert k j v d)) ∙ h in
      subst IsClean (some-injective v w found) new
  | inr other ↦ clean j w (sym (rw other at (lookup-insert k j v d)) ∙ h)
]

put_property-AreClean :
    (n : ℕ) (d e : Dict String) (parts : Option (String × String)) (line : String)
    → AreClean d
    → is_inline line ≡ true
    → split_once b'=' line ≡ parts
    → put_property n d parts ≡ ok e
    → AreClean e
unfolding put_property
put_property-AreClean n d e none line clean inline split h = absurd (ground arith)
put_property-AreClean n d e (some (left, right)) line clean inline split h =
    elim (Bool-cases (strip left == "" || strip right == "" || has_key d (strip left))) [
      | inl bad ↦ absurd (ground (arith, rw bad at h))
      | inr good ↦
          let (_, tail) =
            all_chars-split_once (λ c. not (is_line_end c)) b'=' line left right inline split in
          let full : (strip right == "") ≡ false = ground arith in
          subst AreClean (ok-injective (rw good at h))
            (insert-AreClean (strip left) (strip right) d clean (strip-IsClean right tail full))
    ]

put_lines-AreClean :
    (n : ℕ) (d e : Dict String) (lines : List String)
    → AreClean d
    → All (λ line. is_inline line ≡ true) lines
    → put_lines n d lines ≡ ok e
    → AreClean e
unfolding put_lines put_line
put_lines-AreClean n d e [] clean inline h = subst AreClean (ok-injective h) clean
put_lines-AreClean n d e (line ∷ lines) clean inline h =
    let (next, first, rest) = >>=-eq-ok (put_line n d line) _ h in
    let tidy = all_chars-strip (λ c. not (is_line_end c)) line inline.0 in
    elim (Bool-cases (strip line == "" || starts_with "#" (strip line))) [
      | inl skipped ↦
          put_lines-AreClean (suc n) next e lines
            (subst AreClean (ok-injective (rw skipped at first)) clean) inline.1 rest
      | inr kept ↦
          put_lines-AreClean (suc n) next e lines
            (put_property-AreClean n d next (split_once b'=' (strip line)) (strip line) clean tidy
              refl (rw kept at first))
            inline.1 rest
    ]

-- A written line is entered.
put_line-field :
    (n : ℕ) (d : Dict String) (k v : String)
    → IsField k v
    → IsClean v
    → has_key d k ≡ false
    → put_line n d (join k (join "=" v)) ≡ ok (d ++ ((k, v) ∷ []))
unfolding put_line put_property
put_line-field n d k v f clean fresh =
    rw
      (f.tight, f.filled, f.not_comment, f.parts, f.name, clean.tight, f.named, clean.filled, fresh)
      (ap ok (insert-new k v d fresh))

abbrev is_fresh : Dict String → List String → Bool
is_fresh d ks = all (λ k. not (has_key d k)) ks

abbrev are_distinct : List String → Bool
are_distinct [] = true
are_distinct (k ∷ ks) = not (contains ks k) && are_distinct ks

has_key-append :
    (d : Dict String) (k v x : String) → has_key (d ++ ((k, v) ∷ [])) x ≡ (has_key d x || x == k)
has_key-append [] k v x = ground arith
has_key-append ((j, w) ∷ d) k v x = ground (arith, has_key-append d k v x)

is_fresh-append :
    (d : Dict String) (k v : String) (ks : List String)
    → is_fresh d ks ≡ true
    → contains ks k ≡ false
    → is_fresh (d ++ ((k, v) ∷ [])) ks ≡ true
is_fresh-append d k v [] h other = refl
is_fresh-append d k v (x ∷ ks) h other = ground (
  arith,
  has_key-append d k v x,
  eq_iff x k,
  eq_iff k x,
  is_fresh-append d k v ks (&&-right (not (has_key d x)) _ h) (ground arith),
)

splitlines_nil : splitlines "" ≡ []
unfolding splitlines
splitlines_nil = refl

config_names : all is_name config_keys ≡ true
unfolding all_chars
config_names = refl

nil-AreClean : AreClean []
unfolding lookup
nil-AreClean k v h = absurd (ground arith)

-- What the written lines are read as.
record IsReread (n : ℕ) (d : Dict String) (ks : List String) (values : Dict String) (out : String)
    : Type 0 where
  added : Dict String
  read : put_lines n d (splitlines out) ≡ ok (d ++ added)
  names : keys added ≡ ks
  same : (k : String) → contains ks k ≡ true → lookup k added ≡ lookup k values

rendered-IsReread :
    (n : ℕ) (d : Dict String) (ks : List String) (values : Dict String) (out : String)
    → AreClean values
    → all is_name ks ≡ true
    → are_distinct ks ≡ true
    → is_fresh d ks ≡ true
    → rendered ks values ≡ ok out
    → IsReread n d ks values out
unfolding rendered put_lines lookup join
rendered-IsReread n d [] values out clean names distinct fresh h =
    subst (IsReread n d [] values) (ok-injective h) (record {
      added = [];
      read = ap (put_lines n d) splitlines_nil ∙ ap ok (sym (append_nil d));
      names = refl;
      same = λ k listed. absurd (ground arith);
    })
rendered-IsReread n d (k ∷ ks) values out clean names distinct fresh h =
    let (v, found, r₁) = >>=-eq-ok (item k values) _ h in
    let (rest, tail, r₂) = >>=-eq-ok (rendered ks values) _ r₁ in
    let there = item-lookup k values v found in
    let neat = clean k v there in
    let f = join-IsField k v (&&-left _ _ names) neat in
    let new : has_key d k ≡ false = ground arith in
    let more =
      rendered-IsReread (suc n) (d ++ ((k, v) ∷ [])) ks values rest clean
        (&&-right (is_name k) _ names) (ground arith)
        (is_fresh-append d k v ks (&&-right (not (has_key d k)) _ fresh) (ground arith)) tail in
    let line = join k (join "=" v) in
    let lines : splitlines (join k (join "=" (join v (join "\n" rest)))) ≡ line ∷ splitlines rest =
      ap splitlines (sym (join_assoc k (join "=" v) (join "\n" rest)))
      ∙ splitlines-join line rest f.inline in
    let entered = put_line-field n d k v f neat new in
    subst (IsReread n d (k ∷ ks) values) (ok-injective r₂) (record {
      added = (k, v) ∷ more.added;
      read =
          ap (put_lines n d) lines
          ∙ (ap (λ r. r >>= λ x. put_lines (suc n) x (splitlines rest)) entered
              ∙ (more.read ∙ ap ok (append_assoc d ((k, v) ∷ []) more.added)));
      names = ap (λ x. k ∷ x) more.names;
      same = λ j listed. elim (Bool-cases (j == k)) [
        | inl here ↦
            subst (λ y. lookup y ((k, v) ∷ more.added) ≡ lookup y values)
              (sym ((eq_iff j k).0 here)) (rw (eq_refl k) (sym there))
        | inr later ↦
            let apart : (k == j) ≡ false = ground (arith, eq_iff j k, eq_iff k j) in
            rw apart (more.same j (rw later at listed))
      ];
    })

read_lines :
    (text : String) (d : Dict String)
    → put_lines 1 [] (splitlines text) ≡ ok d
    → has_exactly d config_keys ≡ true
    → read_properties true text ≡ ok d
unfolding read_properties
read_lines text d lines complete =
    ap
      (λ r. r >>= λ (x : Dict String).
        reject (not (has_exactly x config_keys)) (mismatch "location config" config_keys (keys x))
        >> ok x)
      lines
    ∙ ap (λ b. reject (not b) (mismatch "location config" config_keys (keys d)) >> ok d) complete

-- A configuration that was read and is written again is read back: every key is there, in the order
-- of the keys, with the value it had, and nothing else.
pub render_config-read_properties :
    (floats : Floats) (exact : Bool) (text : String) (values : Dict String) (out : String)
    → read_properties exact text ≡ ok values
    → render_config floats values ≡ ok out
    → (again : Dict String) × (read_properties true out ≡ ok again)
      × (keys again ≡ config_keys)
      × ((k : String) → contains config_keys k ≡ true → lookup k again ≡ lookup k values)
unfolding read_properties render_config
render_config-read_properties floats exact text values out h written =
    let (read, lines, r₁) = >>=-eq-ok (put_lines 1 [] (splitlines text)) _ h in
    let (_, r₂) = reject->>-eq-ok (exact && not (has_exactly read config_keys)) _ _ r₁ in
    let same = ok-injective r₂ in
    let clean = subst AreClean same (
      put_lines-AreClean 1 [] read (splitlines text) nil-AreClean (splitlines-inline text) lines) in
    let (_, entries) = >>-eq-ok (validate_config floats values) _ written in
    let more = rendered-IsReread 1 [] config_keys values out clean config_names refl refl entries in
    let complete : has_exactly more.added config_keys ≡ true =
      ap (λ ks. all (contains config_keys) ks && all (contains ks) config_keys) more.names in
    (more.added, read_lines out more.added more.read complete, more.names, more.same)
