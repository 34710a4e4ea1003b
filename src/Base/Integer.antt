-- ===== src/Base/Integer.antt =====
-- Python's `int(s)`, on ASCII digits.
use Prim.Native.Nat.{ℕ, ◌+◌, ◌-◌, ◌*◌}
use Prim.Native.Char.{code}
use Prim.Native.String.{String}
use mathlib.Core.Bool.{Bool, true, false}
use mathlib.Core.Option.{Option, none, some}
use zygveil.Base.Tests.{eqb, ltb, if◌then◌else◌}
use zygveil.Base.Text.{is_digit, strip}

-- The digits from here on, with single underscores between them: behind a digit (or not), the number
-- so far and how many digits it has.
unfoldable pub read_digits : Bool → ℕ → ℕ → String → Option (ℕ × ℕ)
read_digits after n count String.[] = if after then some (n, count) else none
read_digits after n count (String.◌∷◌ c s) = elim (is_digit (code c)) [
  | true ↦ read_digits true (n * 10 + (code c - b'0')) (count + 1) s
  | false ↦ elim after [
    | true ↦ elim (eqb (code c) b'_') [ true ↦ read_digits false n count s | false ↦ none ]
    | false ↦ none
  ]
]

-- A text of more than 4300 digits is a ValueError.
abbrev pub limited : Bool → Option (ℕ × ℕ) → Option (Bool × ℕ)
limited negative none = none
limited negative (some (n, count)) = if ltb 4300 count then none else some (negative, n)

unfoldable pub signed : String → Option (Bool × ℕ)
unfolding read_digits
signed String.[] = none
signed (String.◌∷◌ c s) =
    if eqb (code c) b'-'
    then limited true (read_digits false 0 0 s)
    else if eqb (code c) b'+'
    then limited false (read_digits false 0 0 s)
    else limited false (read_digits false 0 0 (String.◌∷◌ c s))

-- Whether there is a minus sign, and the absolute value; none is a ValueError.
unfoldable pub integer : String → Option (Bool × ℕ)
unfolding signed strip
integer s = signed (strip s)
