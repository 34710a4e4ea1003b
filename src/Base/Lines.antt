-- ===== src/Base/Lines.antt =====
-- What `str.splitlines`, `str.strip` and `str.split` make of lines that a program has written.
use Prim.Native.Nat.{ℕ, suc}
use Prim.Native.Char.{Char, code}
use Prim.Native.String.{String}
use mathlib.Core.Path.{◌≡◌, refl, sym, ap, subst}
use mathlib.Core.Logic.{inl, inr}
use mathlib.Core.Bool.{Bool, true, false, not, ◌&&◌}
use mathlib.Core.Option.{Option, none, some, some-injective}
use mathlib.Core.List.{List, [], ◌∷◌}
use native.Mathlib.Omega.{arith}
use text.Mathlib.Text.{◌==◌}
use zygveil.Base.Tests.{eqb, Bool-cases, not-eq-true, &&-left, &&-right}
use zygveil.Base.Lists.{All}
use zygveil.Base.Text.{
  count_chars, all_chars, join, is_space, lstrip, rstrip, strip, is_line_end, onto_first,
  lines_after, splitlines, split_once,
}
use zygveil.Base.Words.{drop_char}

-- A text without the end of a line.
abbrev pub is_inline : String → Bool
is_inline = all_chars (λ c. not (is_line_end c))

onto_first-inline :
    (c : Char) (ls : List String)
    → is_line_end (code c) ≡ false
    → All (λ line. is_inline line ≡ true) ls
    → All (λ line. is_inline line ≡ true) (onto_first c ls)
unfolding all_chars
onto_first-inline c [] letter h = (rw letter refl, tt)
onto_first-inline c (line ∷ ls) letter h = (rw letter h.0, h.1)

lines_after-inline :
    (cr : Bool) (s : String) → All (λ line. is_inline line ≡ true) (lines_after cr s)
unfolding lines_after all_chars
lines_after-inline cr String.[] = tt
lines_after-inline cr (String.◌∷◌ c s) =
    let later = lines_after-inline (eqb (code c) 13) s in
    elim (Bool-cases (cr && eqb (code c) 10)) [
      | inl second ↦ rw second later
      | inr first ↦ elim (Bool-cases (is_line_end (code c))) [
        | inl ending ↦ rw (first, ending) (refl, later)
        | inr letter ↦
            rw (first, letter) (onto_first-inline c (lines_after (eqb (code c) 13) s) letter later)
      ]
    ]

-- The lines of a text have no end of a line in them.
pub splitlines-inline : (s : String) → All (λ line. is_inline line ≡ true) (splitlines s)
unfolding splitlines
splitlines-inline = lines_after-inline false

-- Cleaning a text at its ends keeps what holds of each of its letters.
pub all_chars-lstrip :
    (test : ℕ → Bool) (s : String) → all_chars test s ≡ true → all_chars test (lstrip s) ≡ true
unfolding all_chars lstrip
all_chars-lstrip test String.[] h = refl
all_chars-lstrip test (String.◌∷◌ c s) h = ground (arith, all_chars-lstrip test s (ground arith))

pub all_chars-rstrip :
    (test : ℕ → Bool) (s : String) → all_chars test s ≡ true → all_chars test (rstrip s) ≡ true
unfolding all_chars rstrip
all_chars-rstrip test String.[] h = refl
all_chars-rstrip test (String.◌∷◌ c s) h =
    let rest = all_chars-rstrip test s (&&-right (test (code c)) _ h) in
    let first : test (code c) ≡ true = &&-left _ _ h in
    elim (Bool-cases (is_space (code c) && rstrip s == "")) [
      | inl gone ↦ rw gone refl
      | inr kept ↦ rw (kept, rest, first) refl
    ]

pub all_chars-strip :
    (test : ℕ → Bool) (s : String) → all_chars test s ≡ true → all_chars test (strip s) ≡ true
unfolding strip
all_chars-strip test s h = all_chars-lstrip test (rstrip s) (all_chars-rstrip test s h)

lstrip_twice : (s : String) → lstrip (lstrip s) ≡ lstrip s
unfolding lstrip
lstrip_twice String.[] = refl
lstrip_twice (String.◌∷◌ c s) = elim (Bool-cases (is_space (code c))) [
  | inl space ↦ rw space (lstrip_twice s)
  | inr other ↦ rw (other, other) refl
]

rstrip_twice : (s : String) → rstrip (rstrip s) ≡ rstrip s
unfolding rstrip
rstrip_twice String.[] = refl
rstrip_twice (String.◌∷◌ c s) = elim (Bool-cases (is_space (code c) && rstrip s == "")) [
  | inl gone ↦ rw gone refl
  | inr kept ↦ rw (kept, rstrip_twice s, kept) refl
]

filled : (n : ℕ) → 0 ≡ suc n → ⊥
filled n p = omega arith

cons_apart : (c : Char) (s : String) → "" ≡ String.◌∷◌ c s → ⊥
unfolding count_chars
cons_apart c s p = filled (count_chars s) (ap count_chars p)

-- A text with nothing to cut off at its end.
rest_kept : (c : Char) (s : String) → rstrip (String.◌∷◌ c s) ≡ String.◌∷◌ c s → rstrip s ≡ s
unfolding rstrip drop_char
rest_kept c s h = elim (Bool-cases (is_space (code c) && rstrip s == "")) [
  | inl gone ↦ absurd (cons_apart c s (rw gone at h))
  | inr kept ↦ ap drop_char (rw kept at h)
]

rstrip-lstrip : (s : String) → rstrip s ≡ s → rstrip (lstrip s) ≡ lstrip s
unfolding lstrip rstrip
rstrip-lstrip String.[] h = refl
rstrip-lstrip (String.◌∷◌ c s) h = elim (Bool-cases (is_space (code c))) [
  | inl space ↦ rw space (rstrip-lstrip s (rest_kept c s h))
  | inr letter ↦ rw letter h
]

pub strip_twice : (s : String) → strip (strip s) ≡ strip s
unfolding strip
strip_twice s = rw (rstrip-lstrip (rstrip s) (rstrip_twice s)) (lstrip_twice (rstrip s))

rstrip-strip : (s : String) → rstrip (strip s) ≡ strip s
unfolding strip
rstrip-strip s = rstrip-lstrip (rstrip s) (rstrip_twice s)

-- A text that a program may write behind a `=`: one line, not empty, with no space at its ends.
pub record IsClean (s : String) : Type 0 where
  pub inline : is_inline s ≡ true
  pub filled : (s == "") ≡ false
  pub tight : strip s ≡ s
  pub kept : rstrip s ≡ s

-- What has been cleaned is clean.
pub strip-IsClean : (s : String) → is_inline s ≡ true → (strip s == "") ≡ false → IsClean (strip s)
strip-IsClean s h full = record {
  inline = all_chars-strip (λ c. not (is_line_end c)) s h;
  filled = full;
  tight = strip_twice s;
  kept = rstrip-strip s;
}

pub split_later :
    (c : Char) (o : Option (String × String)) (left right : String)
    → elim o as (λ _. Option (String × String)) [
      | none ↦ none
      | some (a, b) ↦ some (String.◌∷◌ c a, b)
    ]
      ≡ some (left, right)
    → (a : String) × (o ≡ some (a, right)) × (left ≡ String.◌∷◌ c a)
split_later c none left right e = absurd (ground arith)
split_later c (some (a, b)) left right e =
    let same : (String.◌∷◌ c a, b) ≡ (left, right) =
      some-injective (String.◌∷◌ c a, b) (left, right) e in
    (
      a,
      ap (λ (x : String × String). some (a, x.1)) same,
      sym (ap (λ (x : String × String). x.0) same),
    )

-- Both parts of a split have what each letter of the text had.
pub all_chars-split_once :
    (test : ℕ → Bool) (sep : ℕ) (s left right : String)
    → all_chars test s ≡ true
    → split_once sep s ≡ some (left, right)
    → (all_chars test left ≡ true) × (all_chars test right ≡ true)
unfolding all_chars split_once
all_chars-split_once test sep String.[] left right h e = absurd (ground arith)
all_chars-split_once test sep (String.◌∷◌ c s) left right h e =
    elim (Bool-cases (eqb (code c) sep)) [
      | inl here ↦
          let same : ("", s) ≡ (left, right) =
            some-injective ("", s) (left, right) (rw here at e) in
          (
            subst (λ x. all_chars test x ≡ true) (ap (λ (x : String × String). x.0) same) refl,
            subst (λ x. all_chars test x ≡ true) (ap (λ (x : String × String). x.1) same)
                (&&-right (test (code c)) _ h),
          )
      | inr later ↦
          let (a, found, whole) = split_later c (split_once sep s) left right (rw later at e) in
          let (l, r) =
            all_chars-split_once test sep s a right (&&-right (test (code c)) _ h) found in
          let first : test (code c) ≡ true = &&-left _ _ h in (rw whole (rw (first, l) refl), r)
    ]

no_return : (c : ℕ) → is_line_end c ≡ false → eqb c 13 ≡ false
unfolding is_line_end
no_return c h = ground arith

-- A line, and the lines behind it.
pub splitlines-join :
    (line rest : String)
    → is_inline line ≡ true
    → splitlines (join line (join "\n" rest)) ≡ line ∷ splitlines rest
unfolding splitlines all_chars join lines_after
splitlines-join String.[] rest h = refl
splitlines-join (String.◌∷◌ c s) rest h =
    let letter : is_line_end (code c) ≡ false = not-eq-true _ (&&-left _ _ h) in
    let further = splitlines-join s rest (&&-right (not (is_line_end (code c))) _ h) in
    rw (letter, no_return (code c) letter, further) refl
