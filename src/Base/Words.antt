-- ===== src/Base/Words.antt =====
-- Python's `str.split`, `startswith`, `replace` and `rfind`, over the characters of a `String`.
use Prim.Native.Nat.{ℕ, suc, ◌-◌}
use Prim.Native.Char.{Char, code}
use Prim.Native.String.{String}
use mathlib.Core.Path.{◌≡◌, refl, ap}
use mathlib.Core.Logic.{inl, inr}
use mathlib.Core.Bool.{Bool, true, false, not, ◌&&◌}
use mathlib.Core.Option.{Option, none, some}
use mathlib.Core.List.{List, [], ◌∷◌}
use native.Mathlib.Omega.{arith}
use text.Mathlib.Text.{◌==◌}
use text.Mathlib.TextEquality.{eq_iff}
use zygveil.Base.Tests.{eqb, if◌then◌else◌, Bool-cases}
use zygveil.Base.Text.{is_space, join, all_chars, count_chars}

abbrev pub push_word : String → List String → List String
push_word w ws = if w == "" then ws else w ∷ ws

-- The letters up to the first space, and the words behind it.
unfoldable pub word_and_rest : String → String × List String
unfolding is_space
word_and_rest String.[] = ("", [])
word_and_rest (String.◌∷◌ c s) =
    let found = word_and_rest s in
    if is_space (code c) then ("", push_word found.0 found.1) else (String.◌∷◌ c found.0, found.1)

-- `s.split()`
unfoldable pub words : String → List String
unfolding word_and_rest
words s = let found = word_and_rest s in push_word found.0 found.1

-- `s.startswith(prefix)`
unfoldable pub starts_with : String → String → Bool
starts_with String.[] s = true
starts_with (String.◌∷◌ a p) String.[] = false
starts_with (String.◌∷◌ a p) (String.◌∷◌ b s) = eqb (code a) (code b) && starts_with p s

-- `s.replace(c, "")` of one character
unfoldable pub without_char : ℕ → String → String
without_char c String.[] = ""
without_char c (String.◌∷◌ x s) =
    let rest = without_char c s in if eqb (code x) c then rest else String.◌∷◌ x rest

abbrev later : Option String → Option String → Option String
later (some t) found = some t
later none found = found

-- What stands behind the last `c`, as `s[s.rfind(c) + 1:]` says it; none if there is no `c`.
unfoldable pub after_last : ℕ → String → Option String
after_last c String.[] = none
after_last c (String.◌∷◌ x s) =
    let rest = after_last c s in later rest (if eqb (code x) c then some s else none)

unfoldable pub drop_char : String → String
drop_char String.[] = ""
drop_char (String.◌∷◌ c s) = s

pub after_last-none :
    (c : ℕ) (s : String) → all_chars (λ x. not (eqb x c)) s ≡ true → after_last c s ≡ none
unfolding after_last all_chars
after_last-none c String.[] h = refl
after_last-none c (String.◌∷◌ x s) h = rw (after_last-none c s (ground arith)) (ground arith)

-- The last `c` is found, whatever stands before it.
pub after_last-join :
    (c : Char) (head rest : String)
    → all_chars (λ x. not (eqb x (code c))) rest ≡ true
    → after_last (code c) (join head (String.◌∷◌ c rest)) ≡ some rest
unfolding after_last join
after_last-join c String.[] rest h = rw (after_last-none (code c) rest h) (ground arith)
after_last-join c (String.◌∷◌ x head) rest h = rw (after_last-join c head rest h) refl

-- `s.replace(old, new)` with `skip` letters of a match still to pass over. An empty `old` is left out.
unfoldable pub replace_after : ℕ → String → String → String → String
unfolding starts_with count_chars join
replace_after skip old new String.[] = ""
replace_after skip old new (String.◌∷◌ c s) =
    let passed = replace_after (skip - 1) old new s in
    let matched = replace_after (count_chars old - 1) old new s in
    let rest = replace_after 0 old new s in
    if eqb skip 0
    then (if starts_with old (String.◌∷◌ c s) then join new matched else String.◌∷◌ c rest)
    else passed

unfoldable pub replace_text : String → String → String → String
unfolding replace_after
replace_text old new s = if old == "" then s else replace_after 0 old new s

pub all_chars-join :
    (test : ℕ → Bool) (s t : String)
    → all_chars test s ≡ true
    → all_chars test t ≡ true
    → all_chars test (join s t) ≡ true
unfolding all_chars join
all_chars-join test String.[] t h k = k
all_chars-join test (String.◌∷◌ c s) t h k =
    ground (arith, all_chars-join test s t (ground arith) k)

-- What holds of every letter of a text and of what is put in holds of every letter of the outcome.
pub all_chars-replace_after :
    (test : ℕ → Bool) (skip : ℕ) (old new s : String)
    → all_chars test new ≡ true
    → all_chars test s ≡ true
    → all_chars test (replace_after skip old new s) ≡ true
unfolding all_chars replace_after
all_chars-replace_after test skip old new String.[] n h = refl
all_chars-replace_after test skip old new (String.◌∷◌ c s) n h = ground (
  arith,
  all_chars-replace_after test (skip - 1) old new s n (ground arith),
  all_chars-replace_after test 0 old new s n (ground arith),
  all_chars-join test new (replace_after (count_chars old - 1) old new s) n
      (all_chars-replace_after test (count_chars old - 1) old new s n (ground arith)),
)

pub all_chars-replace_text :
    (test : ℕ → Bool) (old new s : String)
    → all_chars test new ≡ true
    → all_chars test s ≡ true
    → all_chars test (replace_text old new s) ≡ true
unfolding replace_text
all_chars-replace_text test old new s n h =
    ground (arith, all_chars-replace_after test 0 old new s n h)

pub all_chars-without_char :
    (c : ℕ) (s : String) → all_chars (λ x. not (eqb x c)) (without_char c s) ≡ true
unfolding all_chars without_char
all_chars-without_char c String.[] = refl
all_chars-without_char c (String.◌∷◌ x s) = ground (arith, all_chars-without_char c s)

char_gone :
    (c : Char) (new s : String)
    → all_chars (λ x. not (eqb x (code c))) new ≡ true
    → all_chars (λ x. not (eqb x (code c))) (replace_after 0 (String.◌∷◌ c "") new s) ≡ true
unfolding replace_after all_chars starts_with count_chars
char_gone c new String.[] n = refl
char_gone c new (String.◌∷◌ x s) n = ground (
  arith,
  char_gone c new s n,
  all_chars-join (λ x. not (eqb x (code c))) new (replace_after 0 (String.◌∷◌ c "") new s) n
      (char_gone c new s n),
)

pub cons_not_empty : (c : Char) (s : String) → (String.◌∷◌ c s == "") ≡ false
unfolding count_chars
cons_not_empty c s = elim (Bool-cases (String.◌∷◌ c s == "")) [
  | inl e ↦ absurd (filled (ap count_chars ((eq_iff (String.◌∷◌ c s) "").0 e)))
  | inr e ↦ e
]
  where
    filled : suc (count_chars s) ≡ 0 → ⊥
    filled p = omega arith

-- A letter that is replaced by a text without it is gone.
pub all_chars-replace_char :
    (c : Char) (new s : String)
    → all_chars (λ x. not (eqb x (code c))) new ≡ true
    → all_chars (λ x. not (eqb x (code c))) (replace_text (String.◌∷◌ c "") new s) ≡ true
unfolding replace_text
all_chars-replace_char c new s n = rw (cons_not_empty c "") (char_gone c new s n)
