-- ===== src/Json/Plain.antt =====
-- Reading what was printed, for objects of plain texts and digits.
use zygveil.Base.{
  ℕ, zero, suc, ◌-◌, ◌≤◌, ◌<◌, ◌≡◌, refl, subst, ◌∙◌, String, [], ◌∷◌, length, count_chars,
  count_chars-join, join, ok, Dict, ◌⊎◌, inl, inr, arith,
}
use zygveil.Json.{Json, Fields, int, text, obj, end}
use zygveil.Json.Print.{dumps, member, more_members, braced}
use zygveil.Json.Parse.{skip, put_field}
use zygveil.Json.Load.{Reader, members, value, value_by, continue_with, unless_closed, loads}
use zygveil.Json.Members.{
  Plain, join_assoc, member_text, members-member, PlainValue, print_all, put_all, PlainDict,
  value-text,
}

-- What follows a value inside an object.
abbrev Stops : String → Type 0
Stops stop = (stop ≡ ",") ⊎ (stop ≡ "}")

value-digit :
    (f n : ℕ) (stop t : String)
    → n < 10
    → Stops stop
    → value (suc f) (join (dumps (int n)) (join stop t)) ≡ ok (int n, join stop t)
unfolding value dumps join
value-digit f zero stop t h st = elim st [ inl e ↦ rw e refl | inr e ↦ rw e refl ]
value-digit f (suc zero) stop t h st = elim st [ inl e ↦ rw e refl | inr e ↦ rw e refl ]
value-digit f (suc (suc zero)) stop t h st = elim st [ inl e ↦ rw e refl | inr e ↦ rw e refl ]
value-digit f (suc (suc (suc zero))) stop t h st = elim st [ inl e ↦ rw e refl | inr e ↦ rw e refl ]
value-digit f (suc (suc (suc (suc zero)))) stop t h st = elim st [
  | inl e ↦ rw e refl
  | inr e ↦ rw e refl
]
value-digit f (suc (suc (suc (suc (suc zero))))) stop t h st = elim st [
  | inl e ↦ rw e refl
  | inr e ↦ rw e refl
]
value-digit f (suc (suc (suc (suc (suc (suc zero)))))) stop t h st = elim st [
  | inl e ↦ rw e refl
  | inr e ↦ rw e refl
]
value-digit f (suc (suc (suc (suc (suc (suc (suc zero))))))) stop t h st = elim st [
  | inl e ↦ rw e refl
  | inr e ↦ rw e refl
]
value-digit f (suc (suc (suc (suc (suc (suc (suc (suc zero)))))))) stop t h st = elim st [
  | inl e ↦ rw e refl
  | inr e ↦ rw e refl
]
value-digit f (suc (suc (suc (suc (suc (suc (suc (suc (suc zero))))))))) stop t h st = elim st [
  | inl e ↦ rw e refl
  | inr e ↦ rw e refl
]
value-digit f (suc (suc (suc (suc (suc (suc (suc (suc (suc (suc n)))))))))) stop t h st =
    absurd (omega arith)

value-plain :
    (f : ℕ) (v : Json) (stop t : String)
    → PlainValue v
    → Stops stop
    → value (suc f) (join (dumps v) (join stop t)) ≡ ok (v, join stop t)
unfolding dumps
value-plain f (text s) stop t h st = value-text f s (join stop t) h
value-plain f (int n) stop t h st = unfold dumps in value-digit f n stop t h st
value-plain f _ stop t h st = absurd h

continue-comma :
    (more : Reader) (whole : Json) (t : String)
    → continue_with b'}' more whole (skip (join "," t)) ≡ more t
unfolding continue_with skip join
continue-comma more whole t = refl

continue-close :
    (more : Reader) (whole : Json) (t : String)
    → continue_with b'}' more whole (skip (join "}" t)) ≡ ok (whole, t)
unfolding continue_with skip join
continue-close more whole t = refl

members-print_all :
    (n f : ℕ) (acc : Fields) (k : String) (v : Json) (d : Dict Json) (tail : String)
    → Plain k
    → PlainValue v
    → PlainDict d
    → length d ≤ n
    → members
        (suc n)
        (value (suc f))
        acc
        (join (member (k, dumps v)) (join (more_members (print_all d)) tail))
      ≡ ok (obj (put_all (put_field k v acc) d), tail)
unfolding more_members
members-print_all n f acc k v [] tail hk hv hd fits =
    members-member n (value (suc f)) acc k v (dumps v) (join "}" tail) hk
      (value-plain f v "}" tail hv (inr refl))
    ∙ continue-close (members n (value (suc f)) (put_field k v acc)) _ tail
members-print_all zero f acc k v (e ∷ d) tail hk hv hd fits = absurd (omega arith)
members-print_all (suc n) f acc k v ((j, w) ∷ d) tail hk hv (hj, hw, hd) fits =
    let rest : String = join (member (j, dumps w)) (join (more_members (print_all d)) tail) in
    rw (join_assoc "," (join (member (j, dumps w)) (more_members (print_all d))) tail) (
      rw (join_assoc (member (j, dumps w)) (more_members (print_all d)) tail) (
        members-member (suc n) (value (suc f)) acc k v (dumps v) (join "," rest) hk
          (value-plain f v "," rest hv (inl refl))
        ∙ continue-comma (members (suc n) (value (suc f)) (put_field k v acc)) _ rest
        ∙ members-print_all n f (put_field k v acc) j w d tail hj hw hd (omega arith)))

value_at_brace :
    (f : ℕ) (u : String)
    → value (suc f) (join "{" (join "\"" u)) ≡ members f (value f) end (join "\"" u)
unfolding value value_by unless_closed skip join
value_at_brace f u = refl

-- The first character of a member.
member_quote :
    (k printed t : String) → Plain k → (u : String) × (join (member (k, printed)) t ≡ join "\"" u)
member_quote k printed t h =
    (join k (join "\"" (join ":" (join printed t))), member_text k printed t h)

value-braced :
    (n : ℕ) (k : String) (v : Json) (d : Dict Json) (tail : String)
    → Plain k
    → PlainValue v
    → PlainDict d
    → length d ≤ n
    → value (suc (suc n)) (join (braced ((k, dumps v) ∷ print_all d)) tail)
      ≡ ok (obj (put_all (put_field k v end) d), tail)
unfolding braced
value-braced n k v d tail hk hv hd fits =
    let rest : String = join (more_members (print_all d)) tail in
    let (u, e) = member_quote k (dumps v) rest hk in
    rw (join_assoc "{" (join (member (k, dumps v)) (more_members (print_all d))) tail) (
      rw (join_assoc (member (k, dumps v)) (more_members (print_all d)) tail) (
        rw e (value_at_brace (suc n) u)
        ∙ subst
            (λ s.
              members (suc n) (value (suc n)) end s
              ≡ ok (obj (put_all (put_field k v end) d), tail))
            e (members-print_all n n end k v d tail hk hv hd fits)))

count_chars-more_members : (d : Dict Json) → length d < count_chars (more_members (print_all d))
unfolding more_members count_chars
count_chars-more_members [] = omega arith
count_chars-more_members ((k, v) ∷ d) = omega (
  arith,
  count_chars-join "," (join (member (k, dumps v)) (more_members (print_all d))),
  count_chars-join (member (k, dumps v)) (more_members (print_all d)),
  count_chars-more_members d,
)

count_chars-braced :
    (k : String) (v : Json) (d : Dict Json)
    → length d < count_chars (braced ((k, dumps v) ∷ print_all d))
unfolding braced
count_chars-braced k v d = omega (
  arith,
  count_chars-join "{" (join (member (k, dumps v)) (more_members (print_all d))),
  count_chars-join (member (k, dumps v)) (more_members (print_all d)),
  count_chars-more_members d,
)

loads_of_value :
    (s : String) (n : ℕ) (v : Json)
    → count_chars s ≡ suc n
    → value (suc (suc n)) s ≡ ok (v, "\n")
    → loads s ≡ ok v
unfolding loads skip
loads_of_value s n v e h = rw (e, h)

-- A printed object of plain members, with a line end behind it, is read back.
pub loads-braced :
    (k : String) (v : Json) (d : Dict Json)
    → PlainDict ((k, v) ∷ d)
    → loads (join (braced ((k, dumps v) ∷ print_all d)) "\n")
      ≡ ok (obj (put_all (put_field k v end) d))
loads-braced k v d (hk, hv, hd) =
    let s : String = join (braced ((k, dumps v) ∷ print_all d)) "\n" in
    let long : length d < count_chars s = omega (
      arith,
      count_chars-join (braced ((k, dumps v) ∷ print_all d)) "\n",
      count_chars-braced k v d,
    ) in
    loads_of_value s (count_chars s - 1) (obj (put_all (put_field k v end) d)) (omega arith)
      (value-braced (count_chars s - 1) k v d "\n" hk hv hd (omega arith))
