-- ===== src/Base/Named.antt =====
-- Lines of the form `name=value` that a program has written, and how they are read.
use Prim.Native.Nat.{ℕ}
use Prim.Native.Char.{code}
use Prim.Native.String.{String}
use mathlib.Core.Path.{◌≡◌, ◌∙◌, refl, sym, ap}
use mathlib.Core.Bool.{Bool, true, false, not, ◌&&◌, ◌||◌}
use mathlib.Core.Option.{some}
use native.Mathlib.Omega.{arith}
use text.Mathlib.Text.{◌==◌}
use zygveil.Base.Tests.{eqb, not-eq-true, &&-left, &&-right}
use zygveil.Base.Text.{
  all_chars, join, is_space, lstrip, rstrip, strip, is_line_end, split_once, in_range,
}
use zygveil.Base.Words.{cons_not_empty, starts_with, all_chars-join}
use zygveil.Base.Lines.{is_inline, IsClean}

-- A letter of a name.
abbrev pub is_name_letter : ℕ → Bool
is_name_letter c = in_range b'0' b'9' c || in_range b'a' b'z' c || eqb c b'_'

abbrev pub is_name : String → Bool
is_name s = not (s == "") && all_chars is_name_letter s

letter_lem :
    (c : ℕ)
    → is_name_letter c ≡ true
    → (is_space c ≡ false) × (is_line_end c ≡ false) × (eqb c b'=' ≡ false)
unfolding is_space is_line_end
letter_lem c h = (ground arith, ground arith, ground arith)

pub all_chars_mono :
    (p q : ℕ → Bool) (s : String)
    → ((c : ℕ) → p c ≡ true → q c ≡ true)
    → all_chars p s ≡ true
    → all_chars q s ≡ true
unfolding all_chars
all_chars_mono p q String.[] step h = refl
all_chars_mono p q (String.◌∷◌ c s) step h =
    rw (step (code c) (&&-left _ _ h), all_chars_mono p q s step (&&-right (p (code c)) _ h)) refl

right_false : (a b : Bool) → b ≡ false → (a && b) ≡ false
right_false a b h = ground arith

join_filled : (w v : String) → (v == "") ≡ false → (join w v == "") ≡ false
unfolding join
join_filled String.[] v h = h
join_filled (String.◌∷◌ c w) v h = cons_not_empty c (join w v)

rstrip-join : (w v : String) → (v == "") ≡ false → rstrip v ≡ v → rstrip (join w v) ≡ join w v
unfolding rstrip join
rstrip-join String.[] v full kept = kept
rstrip-join (String.◌∷◌ c w) v full kept =
    let rest = rstrip-join w v full kept in
    let stays : (is_space (code c) && rstrip (join w v) == "") ≡ false =
      right_false (is_space (code c)) _ (ap (λ x. x == "") rest ∙ join_filled w v full) in
    rw (stays, rest) refl

-- What a name is in front of.
lstrip-join : (k rest : String) → is_name k ≡ true → lstrip (join k rest) ≡ join k rest
unfolding lstrip join all_chars
lstrip-join String.[] rest h = absurd (ground arith)
lstrip-join (String.◌∷◌ c k) rest h =
    let letters =
      &&-right (not (String.◌∷◌ c k == "")) (all_chars is_name_letter (String.◌∷◌ c k)) h in
    let (letter, _, _) = letter_lem (code c) (&&-left _ _ letters) in rw letter refl

starts_with-join : (k rest : String) → is_name k ≡ true → starts_with "#" (join k rest) ≡ false
unfolding starts_with join all_chars
starts_with-join String.[] rest h = absurd (ground arith)
starts_with-join (String.◌∷◌ c k) rest h = ground arith

split_once-join :
    (k v : String)
    → all_chars is_name_letter k ≡ true
    → split_once b'=' (join k (join "=" v)) ≡ some (k, v)
unfolding split_once join all_chars
split_once-join String.[] v h = refl
split_once-join (String.◌∷◌ c k) v h =
    let (_, _, other) = letter_lem (code c) (&&-left _ _ h) in
    rw (other, split_once-join k v (&&-right (is_name_letter (code c)) _ h)) refl

-- A name has nothing to cut off.
rstrip-name : (k : String) → all_chars is_name_letter k ≡ true → rstrip k ≡ k
unfolding rstrip all_chars
rstrip-name String.[] h = refl
rstrip-name (String.◌∷◌ c k) h =
    let (letter, _, _) = letter_lem (code c) (&&-left _ _ h) in
    rw (letter, rstrip-name k (&&-right (is_name_letter (code c)) _ h)) refl

-- How a line `name=value` is read.
pub record IsField (k v : String) : Type 0 where
  pub inline : is_inline (join k (join "=" v)) ≡ true
  pub filled : (join k (join "=" v) == "") ≡ false
  pub not_comment : starts_with "#" (join k (join "=" v)) ≡ false
  pub tight : strip (join k (join "=" v)) ≡ join k (join "=" v)
  pub parts : split_once b'=' (join k (join "=" v)) ≡ some (k, v)
  pub name : strip k ≡ k
  pub named : (k == "") ≡ false

pub join_nil : (k : String) → join k "" ≡ k
unfolding join
join_nil String.[] = refl
join_nil (String.◌∷◌ c k) = rw (join_nil k) refl

strip_name : (k : String) → is_name k ≡ true → strip k ≡ k
unfolding strip
strip_name k h =
    let letters = &&-right (not (k == "")) (all_chars is_name_letter k) h in
    ap lstrip (rstrip-name k letters)
    ∙ (ap lstrip (sym (join_nil k)) ∙ (lstrip-join k "" h ∙ join_nil k))

strip_field :
    (k v : String)
    → is_name k ≡ true
    → IsClean v
    → strip (join k (join "=" v)) ≡ join k (join "=" v)
unfolding strip
strip_field k v h clean =
    let tail = rstrip-join "=" v clean.filled clean.kept in
    ap lstrip (rstrip-join k (join "=" v) (join_filled "=" v clean.filled) tail)
    ∙ lstrip-join k (join "=" v) h

pub join-IsField : (k v : String) → is_name k ≡ true → IsClean v → IsField k v
unfolding all_chars join is_line_end
join-IsField k v h clean =
    let letters = &&-right (not (k == "")) (all_chars is_name_letter k) h in
    let named =
      all_chars_mono is_name_letter (λ c. not (is_line_end c)) k
        (λ c letter. rw ((letter_lem c letter).1) refl) letters in
    record {
      inline = all_chars-join (λ c. not (is_line_end c)) k (join "=" v) named clean.inline;
      filled = join_filled k (join "=" v) (join_filled "=" v clean.filled);
      not_comment = starts_with-join k (join "=" v) h;
      tight = strip_field k v h clean;
      parts = split_once-join k v letters;
      name = strip_name k h;
      named = not-eq-true _ (&&-left _ _ h);
    }
