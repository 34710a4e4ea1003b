-- ===== src/Json/Ascii.antt =====
-- A printed object of plain members is ASCII.
use zygveil.Base.{
  ℕ, zero, suc, ◌≡◌, refl, String, Bool, true, [], ◌∷◌, Dict, all_chars, join, ltb, arith,
}
use zygveil.Json.{Json, int, text}
use zygveil.Json.Print.{dumps, quoted, member, more_members, braced}
use zygveil.Json.Members.{Plain, PlainValue, PlainDict, print_all, escaped-plain}

abbrev pub is_ascii : ℕ → Bool
is_ascii c = ltb c 128

abbrev pub Ascii : String → Type 0
Ascii s = all_chars is_ascii s ≡ true

pub join-Ascii : (a b : String) → Ascii a → Ascii b → Ascii (join a b)
unfolding all_chars join
join-Ascii String.[] b h k = k
join-Ascii (String.◌∷◌ c a) b h k = ground (arith, join-Ascii a b)

plain-Ascii : (s : String) → Plain s → Ascii s
unfolding all_chars
plain-Ascii String.[] h = refl
plain-Ascii (String.◌∷◌ c s) h = ground (arith, plain-Ascii s)

quoted-Ascii : (s : String) → Plain s → Ascii (quoted s)
unfolding quoted all_chars
quoted-Ascii s h =
    rw (escaped-plain s h)
      (join-Ascii "\"" (join s "\"") refl (join-Ascii s "\"" (plain-Ascii s h) refl))

value-Ascii : (v : Json) → PlainValue v → Ascii (dumps v)
unfolding dumps all_chars
value-Ascii (text s) h = quoted-Ascii s h
value-Ascii (int zero) h = unfold join in refl
value-Ascii (int (suc zero)) h = unfold join in refl
value-Ascii (int (suc (suc zero))) h = unfold join in refl
value-Ascii (int (suc (suc (suc zero)))) h = unfold join in refl
value-Ascii (int (suc (suc (suc (suc zero))))) h = unfold join in refl
value-Ascii (int (suc (suc (suc (suc (suc zero)))))) h = unfold join in refl
value-Ascii (int (suc (suc (suc (suc (suc (suc zero))))))) h = unfold join in refl
value-Ascii (int (suc (suc (suc (suc (suc (suc (suc zero)))))))) h = unfold join in refl
value-Ascii (int (suc (suc (suc (suc (suc (suc (suc (suc zero))))))))) h = unfold join in refl
value-Ascii (int (suc (suc (suc (suc (suc (suc (suc (suc (suc zero)))))))))) h = unfold join in refl
value-Ascii (int (suc (suc (suc (suc (suc (suc (suc (suc (suc (suc n))))))))))) h =
    absurd (omega arith)
value-Ascii _ h = absurd h

member-Ascii : (k : String) (v : Json) → Plain k → PlainValue v → Ascii (member (k, dumps v))
unfolding all_chars
member-Ascii k v hk hv =
    join-Ascii (quoted k) (join ":" (dumps v)) (quoted-Ascii k hk)
      (join-Ascii ":" (dumps v) refl (value-Ascii v hv))

more_members-Ascii : (d : Dict Json) → PlainDict d → Ascii (more_members (print_all d))
unfolding more_members all_chars
more_members-Ascii [] h = refl
more_members-Ascii ((k, v) ∷ d) (hk, hv, hd) =
    join-Ascii "," (join (member (k, dumps v)) (more_members (print_all d))) refl (
      join-Ascii (member (k, dumps v)) (more_members (print_all d)) (member-Ascii k v hk hv)
        (more_members-Ascii d hd))

pub braced-Ascii :
    (k : String) (v : Json) (d : Dict Json)
    → PlainDict ((k, v) ∷ d)
    → Ascii (braced ((k, dumps v) ∷ print_all d))
unfolding braced all_chars
braced-Ascii k v d (hk, hv, hd) =
    join-Ascii "{" (join (member (k, dumps v)) (more_members (print_all d))) refl (
      join-Ascii (member (k, dumps v)) (more_members (print_all d)) (member-Ascii k v hk hv)
        (more_members-Ascii d hd))
