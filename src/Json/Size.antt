-- ===== src/Json/Size.antt =====
-- How long a printed object is.
use zygveil.Base.{ℕ, ◌+◌, ◌≡◌, String, [], ◌∷◌, Dict, count_chars, count_chars-join, join, arith}
use zygveil.Json.{Json}
use zygveil.Json.Print.{dumps, quoted, member, more_members, braced}
use zygveil.Json.Members.{print_all}

-- Each member costs its comma or brace, its key, its colon and its value; the last bracket is one more.
abbrev pub weight : Dict Json → ℕ
weight [] = 1
weight ((k, v) ∷ d) = 1 + (count_chars (quoted k) + (1 + count_chars (dumps v))) + weight d

count_chars-member :
    (k printed : String)
    → count_chars (member (k, printed)) ≡ count_chars (quoted k) + (1 + count_chars printed)
unfolding count_chars
count_chars-member k printed =
    omega (arith, count_chars-join (quoted k) (join ":" printed), count_chars-join ":" printed)

count_chars-more_members : (d : Dict Json) → count_chars (more_members (print_all d)) ≡ weight d
unfolding more_members count_chars
count_chars-more_members [] = omega arith
count_chars-more_members ((k, v) ∷ d) = omega (
  arith,
  count_chars-join "," (join (member (k, dumps v)) (more_members (print_all d))),
  count_chars-join (member (k, dumps v)) (more_members (print_all d)),
  count_chars-member k (dumps v),
  count_chars-more_members d,
)

pub count_chars-braced :
    (k : String) (v : Json) (d : Dict Json)
    → count_chars (braced ((k, dumps v) ∷ print_all d)) ≡ weight ((k, v) ∷ d)
unfolding braced count_chars
count_chars-braced k v d = omega (
  arith,
  count_chars-join "{" (join (member (k, dumps v)) (more_members (print_all d))),
  count_chars-join (member (k, dumps v)) (more_members (print_all d)),
  count_chars-member k (dumps v),
  count_chars-more_members d,
)
