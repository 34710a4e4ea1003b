-- ===== src/Json/Members.antt =====
-- How a plain text is printed and read, alone and as a member of an object: a text without quotation
-- marks, backslashes, control characters and characters above `~` is printed as it is.
use Prim.Native.Char.{Char, code}
use zygveil.Base.{
  ℕ, suc, ◌<◌, ◌≡◌, refl, String, Bool, true, not, ◌&&◌, List, [], ◌∷◌, eqb, in_range, all_chars,
  join, ok, Dict, &&-left, &&-right, arith,
}
use zygveil.Json.{Json, Fields, int, text, obj}
use zygveil.Json.Print.{dumps, quoted, escape, escaped, member}
use zygveil.Json.Parse.{Mode, text_from, skip, put_field}
use zygveil.Json.Load.{Reader, read_quoted, members, value, continue_with}

abbrev pub is_plain : ℕ → Bool
is_plain n = in_range 32 126 n && not (eqb n 34) && not (eqb n 92)

abbrev pub Plain : String → Type 0
Plain s = all_chars is_plain s ≡ true

pub join_assoc : (a b c : String) → join (join a b) c ≡ join a (join b c)
unfolding join
join_assoc String.[] b c = refl
join_assoc (String.◌∷◌ x a) b c = rw (join_assoc a b c)

escape-plain : (c : Char) → is_plain (code c) ≡ true → escape c ≡ String.◌∷◌ c ""
unfolding escape
escape-plain c h = ground arith

pub escaped-plain : (s : String) → Plain s → escaped s ≡ s
unfolding escaped all_chars join
escaped-plain String.[] h = refl
escaped-plain (String.◌∷◌ c s) h =
    rw (escape-plain c (&&-left _ _ h), escaped-plain s (&&-right (is_plain (code c)) _ h))

pub text_from-plain :
    (s rest : String) → Plain s → text_from Mode.plain (join s (join "\"" rest)) ≡ ok (s, rest)
unfolding text_from all_chars join
text_from-plain String.[] rest h = refl
text_from-plain (String.◌∷◌ c s) rest h = ground (arith, text_from-plain s rest)

-- A member, with what follows it.
pub member_text :
    (k printed t : String)
    → Plain k
    → join (member (k, printed)) t ≡ join "\"" (join k (join "\"" (join ":" (join printed t))))
unfolding quoted
member_text k printed t h = simp (escaped-plain k h, join_assoc)

members_at :
    (n : ℕ) (p : Reader) (acc : Fields) (k : String) (v : Json) (u w t : String)
    → text_from Mode.plain u ≡ ok (k, join ":" w)
    → p w ≡ ok (v, t)
    → members (suc n) p acc (join "\"" u)
      ≡ continue_with b'}' (members n p (put_field k v acc)) (obj (put_field k v acc)) (skip t)
unfolding members join
members_at n p acc k v u w t named e = rw named (rw e)

pub members-member :
    (n : ℕ) (p : Reader) (acc : Fields) (k : String) (v : Json) (printed t : String)
    → Plain k
    → p (join printed t) ≡ ok (v, t)
    → members (suc n) p acc (join (member (k, printed)) t)
      ≡ continue_with b'}' (members n p (put_field k v acc)) (obj (put_field k v acc)) (skip t)
members-member n p acc k v printed t h e = rw (member_text k printed t h) (
    members_at n p acc k v (join k (join "\"" (join ":" (join printed t)))) (join printed t) t
      (text_from-plain k (join ":" (join printed t)) h) e)

-- A value that is printed plainly: a plain text, or a number of one digit.
abbrev pub PlainValue : Json → Type 0
PlainValue (text s) = Plain s
PlainValue (int n) = n < 10
PlainValue _ = ⊥

abbrev pub print_all : Dict Json → List (String × String)
print_all [] = []
print_all ((k, v) ∷ d) = (k, dumps v) ∷ print_all d

abbrev pub put_all : Fields → Dict Json → Fields
put_all acc [] = acc
put_all acc ((k, v) ∷ d) = put_all (put_field k v acc) d

abbrev pub PlainDict : Dict Json → Type 0
PlainDict [] = Unit
PlainDict ((k, v) ∷ d) = Plain k × PlainValue v × PlainDict d

pub value_at_quote : (f : ℕ) (u : String) → value (suc f) (join "\"" u) ≡ read_quoted u
unfolding value join
value_at_quote f u = refl

pub value-text :
    (f : ℕ) (s t : String) → Plain s → value (suc f) (join (quoted s) t) ≡ ok (text s, t)
unfolding quoted
value-text f s t h =
    simp (escaped-plain s h, join_assoc) (rw (value_at_quote, text_from-plain s t h))
