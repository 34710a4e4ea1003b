-- ===== src/Base/Text.antt =====
-- Python's text operations, over the characters of a `String`.
use Prim.Native.Nat.{ℕ, suc, ◌+◌, ◌-◌, ◌*◌, ◌≤◌}
use Prim.Native.Char.{Char, code}
use Prim.Native.String.{String}
use mathlib.Core.Path.{◌≡◌}
use mathlib.Core.Bool.{Bool, true, false, not, ◌&&◌, ◌||◌}
use mathlib.Core.Option.{Option, none, some}
use mathlib.Core.List.{List, [], ◌∷◌}
use native.Mathlib.Omega.{arith}
use text.Mathlib.Text.{◌==◌}
use zygveil.Base.Tests.{leb, eqb, if◌then◌else◌}

-- `len(s)`, which counts characters
unfoldable pub count_chars : String → ℕ
count_chars String.[] = 0
count_chars (String.◌∷◌ c s) = suc (count_chars s)

unfoldable pub all_chars : (ℕ → Bool) → String → Bool
all_chars test String.[] = true
all_chars test (String.◌∷◌ c s) = test (code c) && all_chars test s

unfoldable pub join : String → String → String
join String.[] t = t
join (String.◌∷◌ c s) t = String.◌∷◌ c (join s t)

abbrev pub in_range : ℕ → ℕ → ℕ → Bool
in_range lo hi c = leb lo c && leb c hi

-- The character classes of the regular expressions in the source.
abbrev pub is_digit : ℕ → Bool
is_digit c = in_range b'0' b'9' c

abbrev pub is_lower : ℕ → Bool
is_lower c = in_range b'a' b'z' c

abbrev pub is_upper : ℕ → Bool
is_upper c = in_range b'A' b'Z' c

abbrev pub is_hex : ℕ → Bool
is_hex c = is_digit c || in_range b'a' b'f' c

-- `re.fullmatch(r"[class]{lo,hi}", s)`
unfoldable pub matches : (ℕ → Bool) → ℕ → ℕ → String → Bool
unfolding count_chars all_chars
matches test lo hi s = in_range lo hi (count_chars s) && all_chars test s

-- `re.fullmatch(r"[first][class]{0,most}", s)`
unfoldable pub matches_from : (ℕ → Bool) → (ℕ → Bool) → ℕ → String → Bool
unfolding matches
matches_from first test most String.[] = false
matches_from first test most (String.◌∷◌ c s) = first (code c) && matches test 0 most s

-- `re.fullmatch(r"[0-9a-f]{64}", s)`
unfoldable pub is_sha256 : String → Bool
unfolding matches
is_sha256 = matches is_hex 64 64

-- `str.isspace`, one character
unfoldable pub is_space : ℕ → Bool
is_space c =
    in_range 9 13 c
    || in_range 28 32 c
    || eqb c 0x85
    || eqb c 0xa0
    || eqb c 0x1680
    || in_range 0x2000 0x200a c
    || in_range 0x2028 0x2029 c
    || eqb c 0x202f
    || eqb c 0x205f
    || eqb c 0x3000

unfoldable pub lstrip : String → String
unfolding is_space
lstrip String.[] = String.[]
lstrip (String.◌∷◌ c s) = let rest = lstrip s in if is_space (code c) then rest else String.◌∷◌ c s

unfoldable pub rstrip : String → String
unfolding is_space
rstrip String.[] = String.[]
rstrip (String.◌∷◌ c s) =
    let rest = rstrip s in if is_space (code c) && rest == "" then "" else String.◌∷◌ c rest

unfoldable pub strip : String → String
unfolding lstrip rstrip
strip s = lstrip (rstrip s)

-- The line boundaries of `str.splitlines`; `\r\n` is one of them.
unfoldable pub is_line_end : ℕ → Bool
is_line_end c = in_range 10 13 c || in_range 28 30 c || eqb c 0x85 || in_range 0x2028 0x2029 c

-- A character put before the first line of what follows.
abbrev pub onto_first : Char → List String → List String
onto_first c [] = String.◌∷◌ c "" ∷ []
onto_first c (line ∷ lines) = String.◌∷◌ c line ∷ lines

-- The lines of a text whose last character was (or was not) a carriage return.
unfoldable pub lines_after : Bool → String → List String
unfolding is_line_end
lines_after cr String.[] = []
lines_after cr (String.◌∷◌ c s) =
    let c' = code c in
    let rest = lines_after (eqb c' 13) s in
    if cr && eqb c' 10 then rest else if is_line_end c' then "" ∷ rest else onto_first c rest

-- `s.splitlines()`
unfoldable pub splitlines : String → List String
unfolding lines_after
splitlines = lines_after false

-- `s.split(sep, 1)` for a one-character separator: none if it is not in `s`
unfoldable pub split_once : ℕ → String → Option (String × String)
split_once sep String.[] = none
split_once sep (String.◌∷◌ c s) =
    let rest = split_once sep s in
    if eqb (code c) sep
    then some ("", s)
    else elim rest [ none ↦ none | some (a, b) ↦ some (String.◌∷◌ c a, b) ]

-- `int(s)` of a text of ASCII digits
unfoldable pub decimal_from : ℕ → String → ℕ
decimal_from n String.[] = n
decimal_from n (String.◌∷◌ c s) = decimal_from (n * 10 + (code c - b'0')) s

unfoldable pub decimal : String → ℕ
unfolding decimal_from
decimal = decimal_from 0

-- `s.isdigit()` on ASCII
unfoldable pub isdigit : String → Bool
unfolding all_chars
isdigit s = not (s == "") && all_chars is_digit s

pub count_chars-join : (s t : String) → count_chars (join s t) ≡ count_chars s + count_chars t
unfolding count_chars join
count_chars-join String.[] t = omega arith
count_chars-join (String.◌∷◌ c s) t = omega (arith, count_chars-join s t)

pub count_chars-matches :
    (test : ℕ → Bool) (lo hi : ℕ) (s : String) → matches test lo hi s ≡ true → count_chars s ≤ hi
unfolding matches
count_chars-matches test lo hi s h = ground arith

pub count_chars-matches_from :
    (first test : ℕ → Bool) (most : ℕ) (s : String)
    → matches_from first test most s ≡ true
    → count_chars s ≤ most + 1
unfolding matches_from count_chars
count_chars-matches_from first test most String.[] h = omega arith
count_chars-matches_from first test most (String.◌∷◌ c s) h = ground arith
