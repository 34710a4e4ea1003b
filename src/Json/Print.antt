-- ===== src/Json/Print.antt =====
-- `json.dumps(value, sort_keys=True, separators=(",", ":"))`.
use Prim.Native.Char.{Char, code}
use Prim.Native.String.{compare}
use Prim.Native.Nat.{Ordering}
use zygveil.Base.{
  ℕ, zero, suc, ◌/◌, ◌%◌, ◌+◌, ◌-◌, String, true, false, List, [], ◌∷◌, eqb, ltb, in_range, join,
  if◌then◌else◌,
}
use zygveil.Json.{
  Json, Items, Fields, null, bool, int, minus, real, text, arr, obj, nil, cons, end, field,
}

letter : ℕ → String
letter zero = "a"
letter (suc zero) = "b"
letter (suc (suc zero)) = "c"
letter (suc (suc (suc zero))) = "d"
letter (suc (suc (suc (suc zero)))) = "e"
letter (suc (suc (suc (suc (suc n))))) = "f"

-- The digits of a number below 16, in the order of their values.
digit : ℕ → String
digit zero = "0"
digit (suc zero) = "1"
digit (suc (suc zero)) = "2"
digit (suc (suc (suc zero))) = "3"
digit (suc (suc (suc (suc zero)))) = "4"
digit (suc (suc (suc (suc (suc zero))))) = "5"
digit (suc (suc (suc (suc (suc (suc zero)))))) = "6"
digit (suc (suc (suc (suc (suc (suc (suc zero))))))) = "7"
digit (suc (suc (suc (suc (suc (suc (suc (suc zero)))))))) = "8"
digit (suc (suc (suc (suc (suc (suc (suc (suc (suc zero))))))))) = "9"
digit (suc (suc (suc (suc (suc (suc (suc (suc (suc (suc n)))))))))) = letter n

-- Fuel n + 1 is enough for n: each round divides by ten.
show_from : ℕ → ℕ → String → String
show_from zero n acc = acc
show_from (suc f) n acc =
    let rest = show_from f (n / 10) (join (digit (n % 10)) acc) in
    if ltb n 10 then join (digit n) acc else rest

unfoldable pub show : ℕ → String
unfolding show_from digit letter
show n = show_from (suc n) n ""

hex4 : ℕ → String
hex4 n =
    join (digit (n / 4096 % 16))
      (join (digit (n / 256 % 16)) (join (digit (n / 16 % 16)) (digit (n % 16))))

-- Above U+FFFF a pair of surrogates.
pub unicode_escape : ℕ → String
unicode_escape n =
    if ltb n 65536
    then join "\\u" (hex4 n)
    else join "\\u"
        (join (hex4 (55296 + (n - 65536) / 1024)) (join "\\u" (hex4 (56320 + (n - 65536) % 1024))))

-- One character, as `ensure_ascii` writes it.
unfoldable pub escape : Char → String
escape c =
    let n = code c in
    if eqb n 34
    then "\\\""
    else if eqb n 92
    then "\\\\"
    else if in_range 32 126 n
    then String.◌∷◌ c ""
    else if eqb n 10
    then "\\n"
    else if eqb n 13
    then "\\r"
    else if eqb n 9
    then "\\t"
    else if eqb n 8
    then "\\b"
    else if eqb n 12
    then "\\f"
    else unicode_escape n

unfoldable pub escaped : String → String
escaped String.[] = ""
escaped (String.◌∷◌ c s) = join (escape c) (escaped s)

unfoldable pub quoted : String → String
quoted s = join "\"" (join (escaped s) "\"")

-- `sort_keys`: insertion keeps equal keys in their order, and a dictionary has none.
insert_sorted : String × String → List (String × String) → List (String × String)
insert_sorted e [] = e ∷ []
insert_sorted (k, v) ((j, w) ∷ rest) =
    let below = insert_sorted (k, v) rest in
    elim (compare j k) [ Ordering.gt ↦ (k, v) ∷ (j, w) ∷ rest | _ ↦ (j, w) ∷ below ]

unfoldable pub sort_keys : List (String × String) → List (String × String)
unfolding insert_sorted
sort_keys [] = []
sort_keys (e ∷ rest) = insert_sorted e (sort_keys rest)

abbrev pub member : String × String → String
member (k, printed) = join (quoted k) (join ":" printed)

-- The members after the first, each behind its comma, and the closing bracket.
unfoldable pub more_members : List (String × String) → String
more_members [] = "}"
more_members (e ∷ rest) = join "," (join (member e) (more_members rest))

unfoldable pub braced : List (String × String) → String
unfolding more_members
braced [] = "{}"
braced (e ∷ rest) = join "{" (join (member e) (more_members rest))

more_items : List String → String
more_items [] = "]"
more_items (s ∷ rest) = join "," (join s (more_items rest))

bracketed : List String → String
bracketed [] = "[]"
bracketed (s ∷ rest) = join "[" (join s (more_items rest))

unfoldable mutual
  unfolding show quoted escaped escape unicode_escape hex4 sort_keys braced bracketed more_items

  pub dumps : Json → String
  dumps null = "null"
  dumps (bool true) = "true"
  dumps (bool false) = "false"
  dumps (int n) = show n
  dumps (minus n) = join "-" (show n)
  dumps (real s) = s
  dumps (text s) = quoted s
  dumps (arr xs) = bracketed (dump_items xs)
  dumps (obj fs) = braced (sort_keys (dump_fields fs))

  pub dump_items : Items → List String
  dump_items nil = []
  dump_items (cons x xs) = dumps x ∷ dump_items xs

  pub dump_fields : Fields → List (String × String)
  dump_fields end = []
  dump_fields (field k v fs) = (k, dumps v) ∷ dump_fields fs
