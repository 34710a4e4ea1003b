-- ===== src/Json/Parse.antt =====
-- `json.loads`, over fuel: a value of depth d needs d + 1 levels and an array or object of n members
-- n + 1 rounds, so a text has enough with its own length. An escape of a surrogate is refused.
use Prim.Native.Char.{Char, char, code, IsScalar}
use Prim.Native.Nat.{compare, Ordering}
use zygveil.Base.{
  ℕ, zero, suc, ◌+◌, ◌-◌, ◌*◌, ◌≡◌, refl, String, Bool, true, false, not, ◌&&◌, ◌||◌, ◌==◌, Option,
  none, some, eqb, ltb, leb, in_range, is_digit, is_hex, decimal, isdigit, Result, ok, err, ◌>>=◌,
  if◌then◌else◌,
}
use zygveil.Json.{Json, Items, Fields, int, minus, real, nil, cons, end, field}

abbrev pub decode_error : String
decode_error = "JSONDecodeError"

abbrev is_json_space : ℕ → Bool
is_json_space n = eqb n 32 || in_range 9 10 n || eqb n 13

unfoldable pub skip : String → String
skip String.[] = ""
skip (String.◌∷◌ c s) = let rest = skip s in if is_json_space (code c) then rest else String.◌∷◌ c s

scalar_of_lt : (n : ℕ) → compare n 55296 ≡ Ordering.lt → IsScalar n
scalar_of_lt n e = rw e tt

-- The character of a number below the surrogates.
char_of_order : (n : ℕ) (o : Ordering) → compare n 55296 ≡ o → Option Char
char_of_order n Ordering.lt e = some (char n (scalar_of_lt n e))
char_of_order n _ e = none

char_of : ℕ → Option Char
unfolding char_of_order scalar_of_lt
char_of n = char_of_order n (compare n 55296) refl

hex_value : ℕ → ℕ
hex_value n = if leb n b'9' then n - b'0' else if leb n b'F' then n - b'A' + 10 else n - b'a' + 10

is_any_hex : ℕ → Bool
is_any_hex n = is_hex n || in_range b'A' b'F' n

-- Where the reader of a text stands: between characters, behind a backslash, or with some digits of
-- a `\u` escape still to come.
pub data Mode : Type 0 where
  plain backslash : Mode
  unicode : ℕ → ℕ → Mode

abbrev put_char : Option Char → Result (String × String) → Result (String × String)
put_char (some c) (ok (s, rest)) = ok (String.◌∷◌ c s, rest)
put_char none (ok _) = err decode_error
put_char c (err e) = err e

-- The character that a one-letter escape stands for.
simple_escape : ℕ → Option ℕ
simple_escape n =
    if eqb n 34 || eqb n 92 || eqb n b'/'
    then some n
    else if eqb n b'b'
    then some 8
    else if eqb n b'f'
    then some 12
    else if eqb n b'n'
    then some 10
    else if eqb n b'r'
    then some 13
    else if eqb n b't'
    then some 9
    else none

-- The text up to its closing quotation mark, and what follows.
unfoldable pub text_from : Mode → String → Result (String × String)
unfolding char_of hex_value is_any_hex simple_escape
text_from mode String.[] = err decode_error
text_from plain (String.◌∷◌ c s) =
    let more = text_from plain s in
    let escape = text_from backslash s in
    if eqb (code c) 34
    then ok ("", s)
    else if eqb (code c) 92
    then escape
    else if ltb (code c) 32
    then err decode_error
    else put_char (some c) more
text_from backslash (String.◌∷◌ c s) =
    let more = text_from plain s in
    let digits = text_from (unicode 3 0) s in
    if eqb (code c) b'u' then digits else elim (simple_escape (code c)) [
      | none ↦ err decode_error
      | some n ↦ put_char (char_of n) more
    ]
text_from (unicode zero n) (String.◌∷◌ c s) =
    let more = text_from plain s in
    if is_any_hex (code c)
    then put_char (char_of (n * 16 + hex_value (code c))) more
    else err decode_error
text_from (unicode (suc k) n) (String.◌∷◌ c s) =
    let digits = text_from (unicode k (n * 16 + hex_value (code c))) s in
    if is_any_hex (code c) then digits else err decode_error

-- The longest beginning of characters that a number may have, and the rest.
is_number_char : ℕ → Bool
is_number_char n = is_digit n || eqb n b'-' || eqb n b'+' || eqb n b'.' || eqb n b'e' || eqb n b'E'

abbrev put_first : Char → String × String → String × String
put_first c (s, rest) = (String.◌∷◌ c s, rest)

unfoldable pub span_number : String → String × String
unfolding is_number_char
span_number String.[] = ("", "")
span_number (String.◌∷◌ c s) =
    let more = span_number s in
    if is_number_char (code c) then put_first c more else ("", String.◌∷◌ c s)

-- `0|[1-9][0-9]*`
canonical_digits : String → Bool
canonical_digits String.[] = false
canonical_digits (String.◌∷◌ c s) = isdigit (String.◌∷◌ c s) && (s == "" || not (eqb (code c) b'0'))

-- The states of `-?(0|[1-9][0-9]*)(\.[0-9]+)?([eE][-+]?[0-9]+)?`, named for what was read last.
pub data Spot : Type 0 where
  start sign zero_digit whole point part mark mark_sign power wrong : Spot

advance : Spot → ℕ → Spot
advance start c =
    if eqb c b'-'
    then sign
    else if eqb c b'0'
    then zero_digit
    else if is_digit c
    then whole
    else wrong
advance sign c = if eqb c b'0' then zero_digit else if is_digit c then whole else wrong
advance zero_digit c =
    if eqb c b'.' then point else if eqb c b'e' || eqb c b'E' then mark else wrong
advance whole c =
    if is_digit c
    then whole
    else if eqb c b'.'
    then point
    else if eqb c b'e' || eqb c b'E'
    then mark
    else wrong
advance point c = if is_digit c then part else wrong
advance part c = if is_digit c then part else if eqb c b'e' || eqb c b'E' then mark else wrong
advance mark c = if is_digit c then power else if eqb c b'+' || eqb c b'-' then mark_sign else wrong
advance mark_sign c = if is_digit c then power else wrong
advance power c = if is_digit c then power else wrong
advance wrong c = wrong

-- A number that has a fraction or an exponent may end here.
real_from : Spot → String → Bool
real_from part String.[] = true
real_from power String.[] = true
real_from spot String.[] = false
real_from spot (String.◌∷◌ c s) = real_from (advance spot (code c)) s

number_of : String → Result Json
unfolding canonical_digits advance real_from isdigit decimal
number_of String.[] = err decode_error
number_of (String.◌∷◌ c s) =
    if canonical_digits (String.◌∷◌ c s)
    then ok (int (decimal (String.◌∷◌ c s)))
    else if eqb (code c) b'-' && canonical_digits s
    then ok (if eqb (decimal s) 0 then int 0 else minus (decimal s))
    else if real_from start (String.◌∷◌ c s)
    then ok (real (String.◌∷◌ c s))
    else err decode_error

unfoldable pub number : String → Result (Json × String)
unfolding span_number number_of
number s = let (digits, rest) = span_number s in number_of digits >>= λ v. ok (v, rest)

-- A key that is there already gets the new value.
unfoldable pub put_field : String → Json → Fields → Fields
put_field k v end = field k v end
put_field k v (field j w fs) = if j == k then field j v fs else field j w (put_field k v fs)

abbrev pub snoc : Items → Json → Items
snoc nil v = cons v nil
snoc (cons x xs) v = cons x (snoc xs v)

unfoldable pub expect : ℕ → String → Result String
expect n String.[] = err decode_error
expect n (String.◌∷◌ c s) = if eqb (code c) n then ok s else err decode_error

-- The word, if the text begins with it.
unfoldable pub word : String → Json → String → Result (Json × String)
word String.[] v s = ok (v, s)
word (String.◌∷◌ c w) v String.[] = err decode_error
word (String.◌∷◌ c w) v (String.◌∷◌ d s) =
    let rest = word w v s in if eqb (code c) (code d) then rest else err decode_error
