-- ===== src/OracleInput/Agree.antt =====
-- The oracle's parser of tools/automation/probe.py against that of
-- tools/automation/location_live_control.py.
use zygveil.Base.{
  ℕ, String, ◌≡◌, refl, sym, ap, ◌∙◌, ◌↔◌, Bool, true, false, not, ◌||◌, ◌==◌, Option, none, some,
  some-injective, List, [], ◌∷◌, Dict, lookup, has_exactly, has_key, insert, is_text, all_chars,
  ltb, count_chars, strip, split_once, splitlines, join, Result, ok, err, ◌>>=◌, ◌>>◌, reject,
  if◌then◌else◌,
}
use zygveil.LiveControl.Properties.{add_field, add_split, add_line, add_lines, parse_properties}
use zygveil.LiveControl.Input.{
  Live, live_keys, read_live, is_canonical, fraction, is_outside, validate_decimal, check_live,
  parse_live,
}
use zygveil.OracleInput.{
  enter_field, enter_split, enter_lines, parse_labelled, validate_labelled, check_oracle,
  validate_oracle_input_values, parse_oracle,
}

-- What a call returns, without the message if it raises.
abbrev forget {ℓ} : {A : Type ℓ} → Result A → Option A
forget (ok a) = some a
forget (err _) = none

forget->>= :
    {A B : Type 0} (m n : Result A) (f g : A → Result B)
    → forget m ≡ forget n
    → ((a : A) → forget (f a) ≡ forget (g a))
    → forget (m >>= f) ≡ forget (n >>= g)
forget->>= (ok a) (ok b) f g h k = k a ∙ ap (λ x. forget (g x)) (some-injective a b h)
forget->>= (ok a) (err e) f g h k = cc
forget->>= (err e) (ok b) f g h k = cc
forget->>= (err e) (err e') f g h k = refl

forget-reject : (bad : Bool) (m n : String) → forget (reject bad m) ≡ forget (reject bad n)
forget-reject true m n = refl
forget-reject false m n = refl

forget-ok : {A : Type 0} (m n : Result A) (a : A) → forget m ≡ forget n → m ≡ ok a → n ≡ ok a
forget-ok m (ok b) a h e = ap ok (sym (some-injective a b (sym (ap forget e) ∙ h)))
forget-ok m (err message) a h e = absurd (some_of_none (sym (ap forget e) ∙ h))
  where
    some_of_none : some a ≡ none → ⊥
    some_of_none p = cc

forget-if :
    {A : Type 0} (bad : Bool) (m n : String) (a : A)
    → forget (if bad then err m else ok a) ≡ forget (if bad then err n else ok a)
forget-if true m n a = refl
forget-if false m n a = refl

>>=-assoc :
    {A B C : Type 0} (m : Result A) (f : A → Result B) (g : B → Result C)
    → ((m >>= f) >>= g) ≡ (m >>= λ a. f a >>= g)
>>=-assoc (ok a) f g = refl
>>=-assoc (err e) f g = refl

enter_field-add_field :
    (label : String) (d : Dict String) (parts : String × String)
    → forget (enter_field label d parts) ≡ forget (add_field d parts)
unfolding enter_field add_field
enter_field-add_field label d (left, right) =
    forget-if (strip left == "" || strip right == "" || has_key d (strip left)) _ _
      (insert (strip left) (strip right) d)

enter_split-add_split :
    (label : String) (d : Dict String) (parts : Option (String × String))
    → forget (enter_split label d parts) ≡ forget (add_split d parts)
unfolding enter_split add_split
enter_split-add_split label d none = refl
enter_split-add_split label d (some parts) = enter_field-add_field label d parts

same_unless :
    {A : Type 0} (b : Bool) (a : A) (m n : Result A)
    → forget m ≡ forget n
    → forget (if b then ok a else m) ≡ forget (if b then ok a else n)
same_unless true a m n h = refl
same_unless false a m n h = h

enter_lines-add_lines :
    (label : String) (d : Dict String) (lines : List String)
    → forget (enter_lines label d lines) ≡ forget (add_lines d lines)
unfolding enter_lines add_lines add_line
enter_lines-add_lines label d [] = refl
enter_lines-add_lines label d (line ∷ lines) =
    forget->>=
      (if strip line == "" then ok d else enter_split label d (split_once b'=' (strip line)))
      (if strip line == "" then ok d else add_split d (split_once b'=' (strip line)))
      (λ more. enter_lines label more lines) (λ more. add_lines more lines)
      (same_unless (strip line == "") d _ _
        (enter_split-add_split label d (split_once b'=' (strip line))))
      (λ more. enter_lines-add_lines label more lines)

forget->> :
    {B : Type 0} (m n : Result (Unit {0})) (f g : Result B)
    → forget m ≡ forget n
    → forget f ≡ forget g
    → forget (m >> f) ≡ forget (n >> g)
forget->> m n f g h k = forget->>= m n (λ _. f) (λ _. g) h (λ _. k)

validate_labelled-validate_decimal :
    (label value : String) (digits low high : ℕ)
    → forget (validate_labelled label value digits low high)
      ≡ forget (validate_decimal value digits low high)
unfolding validate_labelled validate_decimal
validate_labelled-validate_decimal label value digits low high =
    forget->> _ _ _ _ (forget-reject (not (is_canonical value)) _ _) (
      forget->> _ _ _ _ (forget-reject (ltb digits (count_chars (fraction value))) _ _)
        (forget-reject (is_outside low high value) _ _))

check_oracle-check_live :
    (label : String) (l : Live) → forget (check_oracle label l) ≡ forget (check_live l)
unfolding check_oracle check_live
check_oracle-check_live label l =
    forget->> _ _ _ _ (validate_labelled-validate_decimal label l.latitude 8 90 90) (
      forget->> _ _ _ _ (validate_labelled-validate_decimal label l.longitude 8 180 180) (
        forget->> _ _ _ _ (validate_labelled-validate_decimal label l.ellipsoid 3 12000 100000)
          (validate_labelled-validate_decimal label l.msl 3 12000 100000)))

-- The part of the two parsers behind the lines.
abbrev label : String
label = "location oracle"

oracle_tail : Dict String → Result Live
oracle_tail values =
    (reject (not (has_exactly values live_keys)) (join label " schema/key set mismatch")
      >> ok values)
    >>= validate_oracle_input_values label

live_tail : Dict String → Result Live
live_tail values =
    reject
      (not (has_exactly values live_keys) || not (is_text (lookup "schema_version" values) "1"))
      "live configuration schema/key set mismatch"
    >> (read_live values >>= λ l. check_live l >> ok l)

values_agree :
    (exact version : Bool) (m n k : String) (values : Dict String) (f : Dict String → Result Live)
    (g h : Result Live)
    → f values ≡ (reject (not exact || version) n >> g)
    → forget g ≡ forget h
    → forget ((reject (not exact) m >> ok values) >>= f)
      ≡ forget (reject (not exact || version) k >> h)
values_agree true true m n k values f g h e same = ap forget e
values_agree true false m n k values f g h e same = ap forget e ∙ same
values_agree false version m n k values f g h e same = refl

oracle_tail-live_tail :
    (values : Dict String) → forget (oracle_tail values) ≡ forget (live_tail values)
unfolding oracle_tail live_tail validate_oracle_input_values
oracle_tail-live_tail values =
    values_agree (has_exactly values live_keys) (not (is_text (lookup "schema_version" values) "1"))
      _ _ _ values (validate_oracle_input_values label)
      (read_live values >>= λ l. check_oracle label l >> ok l) _ refl
      (forget->>= (read_live values) (read_live values) _ _ refl λ l.
        forget->> (check_oracle label l) (check_live l) (ok l) (ok l)
          (check_oracle-check_live label l) refl)

parse_oracle-parse_live : (raw : String) → forget (parse_oracle raw) ≡ forget (parse_live raw)
unfolding parse_oracle parse_labelled parse_live parse_properties oracle_tail live_tail
parse_oracle-parse_live raw =
    forget->> _ _ _ _ (forget-reject (not (all_chars (λ c. ltb c 128) raw)) _ _) (
      ap forget (>>=-assoc (enter_lines label [] (splitlines raw)) _ _)
      ∙ forget->>= (enter_lines label [] (splitlines raw)) (add_lines [] (splitlines raw))
          oracle_tail live_tail (enter_lines-add_lines label [] (splitlines raw))
          oracle_tail-live_tail)

-- A text is accepted as an oracle exactly when it is accepted as a live configuration, with the same
-- position: the point that the helper is sent can be the point that a probe is judged by.
pub parse_oracle_iff_live :
    (raw : String) (l : Live) → parse_oracle raw ≡ ok l ↔ parse_live raw ≡ ok l
parse_oracle_iff_live raw l =
    let same = parse_oracle-parse_live raw in
    (
      forget-ok (parse_oracle raw) (parse_live raw) l same,
      forget-ok (parse_live raw) (parse_oracle raw) l (sym same),
    )
