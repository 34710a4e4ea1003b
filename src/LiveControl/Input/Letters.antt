-- ===== src/LiveControl/Input/Letters.antt =====
-- The letters of a decimal that tools/automation/location_live_control.py accepts.
use Prim.Native.Char.{Char, code}
use zygveil.Base.{
  ℕ, String, ◌≡◌, refl, sym, ap, subst, ◌∙◌, Bool, true, false, not, ◌&&◌, ◌||◌, ◌==◌, some,
  all_chars, all_chars_mono, is_digit, is_space, is_line_end, isdigit, eqb, ltb, eqb→eq, split_once,
  split_later, starts_with, drop_char, lstrip, rstrip, strip, IsClean, Bool-cases, eq_iff,
  Option-cases, some-injective, &&-left, &&-right, inl, inr, arith,
}
use zygveil.LiveControl.Input.{is_canonical, is_negative, magnitude, digits_only}

abbrev pub is_decimal_letter : ℕ → Bool
is_decimal_letter c = is_digit c || eqb c b'-' || eqb c b'.'

all_chars-unsplit :
    (test : ℕ → Bool) (sep : ℕ) (s left right : String)
    → split_once sep s ≡ some (left, right)
    → all_chars test left ≡ true
    → all_chars test right ≡ true
    → test sep ≡ true
    → all_chars test s ≡ true
unfolding split_once all_chars
all_chars-unsplit test sep String.[] left right e l r h = refl
all_chars-unsplit test sep (String.◌∷◌ c s) left right e l r h =
    elim (Bool-cases (eqb (code c) sep)) [
      | inl here ↦
          let same : ("", s) ≡ (left, right) =
            some-injective ("", s) (left, right) (rw here at e) in
          let rest : all_chars test s ≡ true =
            subst (λ x. all_chars test x ≡ true) (sym (ap (λ (x : String × String). x.1) same)) r in
          let first : test (code c) ≡ true =
            subst (λ x. test x ≡ true) (sym (eqb→eq (code c) sep here)) h in
          rw (first, rest) refl
      | inr later ↦
          let (a, found, whole) = split_later c (split_once sep s) left right (rw later at e) in
          let both : all_chars test (String.◌∷◌ c a) ≡ true =
            subst (λ x. all_chars test x ≡ true) whole l in
          let first : test (code c) ≡ true = &&-left _ _ both in
          let rest =
            all_chars-unsplit test sep s a right found (&&-right (test (code c)) _ both) r h in
          rw (first, rest) refl
    ]

-- The digits of a decimal without its sign.
digits-letters : (s : String) → isdigit s ≡ true → all_chars is_decimal_letter s ≡ true
unfolding isdigit
digits-letters s h =
    all_chars_mono is_digit is_decimal_letter s (λ c digit. ground arith)
      (&&-right (not (s == "")) (all_chars is_digit s) h)

unsigned-letters :
    (s : String) → digits_only s (split_once b'.' s) ≡ true → all_chars is_decimal_letter s ≡ true
unsigned-letters s h = elim (Option-cases (split_once b'.' s)) [
  | inl whole ↦ digits-letters s (subst (λ x. digits_only s x ≡ true) whole h)
  | inr ((left, right), parts) ↦
      let both : (isdigit left && isdigit right) ≡ true =
        subst (λ x. digits_only s x ≡ true) parts h in
      all_chars-unsplit is_decimal_letter b'.' s left right parts
        (digits-letters left (&&-left _ _ both))
        (digits-letters right (&&-right (isdigit left) _ both)) refl
]

signed-letters :
    (c : Char) (s : String)
    → all_chars is_decimal_letter (magnitude (String.◌∷◌ c s)) ≡ true
    → all_chars is_decimal_letter (String.◌∷◌ c s) ≡ true
unfolding magnitude is_negative starts_with drop_char all_chars
signed-letters c s h = elim (Bool-cases (is_negative (String.◌∷◌ c s))) [
  | inl minus ↦
      let rest : all_chars is_decimal_letter s ≡ true = rw minus at h in
      let dash : is_decimal_letter (code c) ≡ true = ground arith in rw (dash, rest) refl
  | inr plus ↦ rw plus at h
]

no_letters : all_chars is_decimal_letter "" ≡ true
unfolding all_chars
no_letters = refl

pub canonical-letters : (s : String) → is_canonical s ≡ true → all_chars is_decimal_letter s ≡ true
unfolding is_canonical
canonical-letters String.[] h = no_letters
canonical-letters (String.◌∷◌ c s) h =
    signed-letters c s (unsigned-letters (magnitude (String.◌∷◌ c s)) h)

-- Such a letter is neither a space nor the end of a line, and it is ASCII.
decimal_letter_lem :
    (c : ℕ)
    → is_decimal_letter c ≡ true
    → (is_space c ≡ false) × (is_line_end c ≡ false) × (ltb c 128 ≡ true)
unfolding is_space is_line_end
decimal_letter_lem c h = (ground arith, ground arith, ground arith)

rstrip_letters : (s : String) → all_chars is_decimal_letter s ≡ true → rstrip s ≡ s
unfolding rstrip all_chars
rstrip_letters String.[] h = refl
rstrip_letters (String.◌∷◌ c s) h =
    let (letter, _, _) = decimal_letter_lem (code c) (&&-left _ _ h) in
    rw (letter, rstrip_letters s (&&-right (is_decimal_letter (code c)) _ h)) refl

lstrip_letters : (s : String) → all_chars is_decimal_letter s ≡ true → lstrip s ≡ s
unfolding lstrip all_chars
lstrip_letters String.[] h = refl
lstrip_letters (String.◌∷◌ c s) h =
    let (letter, _, _) = decimal_letter_lem (code c) (&&-left _ _ h) in rw letter refl

strip_letters : (s : String) → all_chars is_decimal_letter s ≡ true → strip s ≡ s
unfolding strip
strip_letters s h = ap lstrip (rstrip_letters s h) ∙ lstrip_letters s h

empty_canonical : is_canonical "" ≡ false
unfolding is_canonical magnitude is_negative starts_with drop_char split_once isdigit
empty_canonical = refl

pub canonical-IsClean : (s : String) → is_canonical s ≡ true → IsClean s
canonical-IsClean s h =
    let letters = canonical-letters s h in
    record {
      inline =
          all_chars_mono is_decimal_letter (λ c. not (is_line_end c)) s
            (λ c letter. rw ((decimal_letter_lem c letter).1) refl) letters;
      filled = elim (Bool-cases (s == "")) [
        | inl empty ↦
            let absent : is_canonical "" ≡ true =
              subst (λ x. is_canonical x ≡ true) ((eq_iff s "").0 empty) h in
            absurd (ground (arith, empty_canonical))
        | inr full ↦ full
      ];
      tight = strip_letters s letters;
      kept = rstrip_letters s letters;
    }

pub canonical-ascii : (s : String) → is_canonical s ≡ true → all_chars (λ c. ltb c 128) s ≡ true
canonical-ascii s h =
    all_chars_mono is_decimal_letter (λ c. ltb c 128) s
      (λ c letter. (decimal_letter_lem c letter).2) (canonical-letters s h)
