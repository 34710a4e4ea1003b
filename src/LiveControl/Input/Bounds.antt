-- ===== src/LiveControl/Input/Bounds.antt =====
-- What the helper can be sent by tools/automation/location_live_control.py.
use zygveil.Base.{
  ℕ, ◌*◌, ◌^◌, ◌≤◌, String, ◌≡◌, sym, subst, true, false, not, ◌||◌, has_exactly, is_text, lookup,
  all_chars, count_chars, ltb, ok, >>=-eq-ok, >>-eq-ok, reject->>-eq-ok, reject-eq-ok, ok-injective,
  not-eq-false, arith,
}
use zygveil.LiveControl.Properties.{parse_properties}
use zygveil.LiveControl.Input.{
  is_canonical, is_negative, fraction, units, scale, is_outside, validate_decimal, Live, live_keys,
  read_live, check_live, live_text, parse_live, validate_live_input,
}

-- A decimal text from `-low` to `high` with at most so many digits behind the point. Its number is
-- `units / 10 ^ k` with k digits there.
pub record IsWithin (fraction_digits low high : ℕ) (s : String) : Type 0 where
  pub canonical : is_canonical s ≡ true
  pub precise : count_chars (fraction s) ≤ fraction_digits
  pub above : is_negative s ≡ true → units s ≤ low * 10 ^ count_chars (fraction s)
  pub below : is_negative s ≡ false → units s ≤ high * 10 ^ count_chars (fraction s)

is_outside-false :
    (low high : ℕ) (s : String)
    → is_outside low high s ≡ false
    → (is_negative s ≡ true → units s ≤ low * scale s)
      × (is_negative s ≡ false → units s ≤ high * scale s)
unfolding is_outside
is_outside-false low high s h = (λ n. ground arith, λ n. ground arith)

validate_decimal-IsWithin :
    (s : String) (fraction_digits low high : ℕ)
    → validate_decimal s fraction_digits low high ≡ ok tt
    → IsWithin fraction_digits low high s
unfolding validate_decimal scale
validate_decimal-IsWithin s fraction_digits low high h =
    let (canonical, r₁) = reject->>-eq-ok (not (is_canonical s)) _ _ h in
    let (precise, r₂) = reject->>-eq-ok (ltb fraction_digits (count_chars (fraction s))) _ _ r₁ in
    let (above, below) = is_outside-false low high s (reject-eq-ok (is_outside low high s) _ r₂) in
    record {
      canonical = not-eq-false _ canonical;
      precise = ground arith;
      above = above;
      below = below;
    }

-- A position and two altitudes that the helper accepts.
pub record IsLive (l : Live) : Type 0 where
  pub latitude : IsWithin 8 90 90 l.latitude
  pub longitude : IsWithin 8 180 180 l.longitude
  pub ellipsoid : IsWithin 3 12000 100000 l.ellipsoid
  pub msl : IsWithin 3 12000 100000 l.msl

check_live-IsLive : (l : Live) → check_live l ≡ ok tt → IsLive l
unfolding check_live
check_live-IsLive l h =
    let (a, r₁) = >>-eq-ok (validate_decimal l.latitude 8 90 90) _ h in
    let (b, r₂) = >>-eq-ok (validate_decimal l.longitude 8 180 180) _ r₁ in
    let (c, d) = >>-eq-ok (validate_decimal l.ellipsoid 3 12000 100000) _ r₂ in
    record {
      latitude = validate_decimal-IsWithin l.latitude 8 90 90 a;
      longitude = validate_decimal-IsWithin l.longitude 8 180 180 b;
      ellipsoid = validate_decimal-IsWithin l.ellipsoid 3 12000 100000 c;
      msl = validate_decimal-IsWithin l.msl 3 12000 100000 d;
    }

-- Whatever file is accepted, the text that is sent is the canonical one of a latitude from -90 to 90
-- and a longitude from -180 to 180 with at most 8 digits behind the point, and of two altitudes from
-- -12000 to 100000 with at most 3.
pub validate_live_input_sound :
    (raw text : String)
    → validate_live_input raw ≡ ok text
    → (l : Live) × (text ≡ live_text l) × IsLive l
unfolding validate_live_input parse_live
validate_live_input_sound raw text h =
    let (l, parsed, same) = >>=-eq-ok (parse_live raw) _ h in
    let (_, r₁) = reject->>-eq-ok (not (all_chars (λ c. ltb c 128) raw)) _ _ parsed in
    let (values, _, r₂) = >>=-eq-ok (parse_properties raw) _ r₁ in
    let (_, r₃) =
      reject->>-eq-ok
        (not (has_exactly values live_keys) || not (is_text (lookup "schema_version" values) "1")) _
        _ r₂ in
    let (m, _, r₄) = >>=-eq-ok (read_live values) _ r₃ in
    let (checked, kept) = >>-eq-ok (check_live m) (ok m) r₄ in
    (l, sym (ok-injective same), subst IsLive (ok-injective kept) (check_live-IsLive m checked))
