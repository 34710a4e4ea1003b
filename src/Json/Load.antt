-- ===== src/Json/Load.antt =====
-- `json.loads`: values, over the readers of Json/Parse.antt. A value of depth d needs d + 1 levels of
-- fuel and an array or object of n members n rounds, so a text has enough in its own length.
use zygveil.Base.{
  ℕ, zero, suc, String, true, false, ◌==◌, eqb, count_chars, Result, ok, err, ◌>>=◌, if◌then◌else◌,
}
use Prim.Native.Char.{code}
use zygveil.Json.{Json, Items, Fields, null, bool, real, text, arr, obj, nil, end}
use zygveil.Json.Parse.{Mode, text_from, number, put_field, snoc, expect, word, skip, decode_error}

abbrev pub Reader : Type 0
Reader = String → Result (Json × String)

-- Behind a value of an object or an array: a comma and more, or the closing bracket.
unfoldable pub continue_with : ℕ → Reader → Json → Reader
continue_with close more whole String.[] = err decode_error
continue_with close more whole (String.◌∷◌ c s) =
    if eqb (code c) b','
    then more s
    else if eqb (code c) close
    then ok (whole, s)
    else err decode_error

unfoldable pub members : ℕ → Reader → Fields → Reader
unfolding continue_with expect skip text_from put_field
members zero p acc s = err decode_error
members (suc n) p acc s = do
  opened ← expect 34 (skip s)
  (k, named) ← text_from Mode.plain opened
  separated ← expect b':' (skip named)
  (v, rest) ← p separated
  continue_with b'}' (members n p (put_field k v acc)) (obj (put_field k v acc)) (skip rest)

unfoldable pub elements : ℕ → Reader → Items → Reader
unfolding continue_with skip
elements zero p acc s = err decode_error
elements (suc n) p acc s = do
  (v, rest) ← p s
  continue_with b']' (elements n p (snoc acc v)) (arr (snoc acc v)) (skip rest)

-- Behind an opening bracket: the closing one at once, or the first member.
unfoldable pub unless_closed : ℕ → Json → Reader → Reader
unless_closed close empty first String.[] = err decode_error
unless_closed close empty first (String.◌∷◌ c s) =
    if eqb (code c) close then ok (empty, s) else first (String.◌∷◌ c s)

abbrev pub read_quoted : Reader
read_quoted s = text_from Mode.plain s >>= λ (t, rest). ok (text t, rest)

abbrev number_or_infinity : Result (Json × String) → Reader
number_or_infinity (ok v) whole = ok v
number_or_infinity (err e) whole = word "-Infinity" (real "-Infinity") whole

-- A value by its first character, with the reader of what stands inside it.
unfoldable pub value_by : ℕ → Reader → Reader
unfolding members elements unless_closed word number text_from skip
value_by n p String.[] = err decode_error
value_by n p (String.◌∷◌ c s) =
    if eqb (code c) 34
    then read_quoted s
    else if eqb (code c) b'{'
    then unless_closed b'}' (obj end) (members n p end) (skip s)
    else if eqb (code c) b'['
    then unless_closed b']' (arr nil) (elements n p nil) (skip s)
    else if eqb (code c) b't'
    then word "true" (bool true) (String.◌∷◌ c s)
    else if eqb (code c) b'f'
    then word "false" (bool false) (String.◌∷◌ c s)
    else if eqb (code c) b'n'
    then word "null" null (String.◌∷◌ c s)
    else if eqb (code c) b'N'
    then word "NaN" (real "NaN") (String.◌∷◌ c s)
    else if eqb (code c) b'I'
    then word "Infinity" (real "Infinity") (String.◌∷◌ c s)
    else number_or_infinity (number (String.◌∷◌ c s)) (String.◌∷◌ c s)

unfoldable pub value : ℕ → Reader
unfolding value_by
value zero s = err decode_error
value (suc f) s = value_by f (value f) (skip s)

abbrev pub at_end : Json × String → Result Json
at_end (v, rest) = if skip rest == "" then ok v else err decode_error

unfoldable pub loads : String → Result Json
loads s = value (suc (count_chars s)) s >>= at_end
