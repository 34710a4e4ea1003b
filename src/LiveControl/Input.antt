-- ===== src/LiveControl/Input.antt =====
-- `validate_decimal` and `validate_live_input` of tools/automation/location_live_control.py.
pub mod Bounds
pub mod Letters
pub mod RoundTrip
use zygveil.Base.{
  ℕ, ◌*◌, ◌^◌, String, Bool, true, false, not, ◌&&◌, ◌||◌, ◌==◌, Option, none, some, List, [], ◌∷◌,
  Dict, lookup, has_exactly, is_text, item, all_chars, isdigit, decimal, split_once, starts_with,
  drop_char, join, count_chars, ltb, Result, ok, err, ◌>>=◌, ◌>>◌, reject, if◌then◌else◌,
}
use zygveil.LiveControl.Properties.{parse_properties}

-- `LIVE_KEYS`
abbrev pub live_keys : List String
live_keys =
    "schema_version" ∷ "center_latitude_deg" ∷ "center_longitude_deg" ∷ "altitude_ellipsoid_m"
    ∷ "altitude_msl_m" ∷ []

unfoldable pub is_negative : String → Bool
unfolding starts_with
is_negative s = starts_with "-" s

-- The text behind the sign.
unfoldable pub magnitude : String → String
unfolding drop_char is_negative
magnitude s = if is_negative s then drop_char s else s

abbrev pub whole_of : String → Option (String × String) → String
whole_of s none = s
whole_of s (some (whole, _)) = whole

abbrev pub fraction_of : Option (String × String) → String
fraction_of none = ""
fraction_of (some (_, fraction)) = fraction

abbrev pub digits_only : String → Option (String × String) → Bool
digits_only s none = isdigit s
digits_only s (some (whole, fraction)) = isdigit whole && isdigit fraction

-- `-?[0-9]+(?:\.[0-9]+)?`
unfoldable pub is_canonical : String → Bool
unfolding split_once isdigit magnitude
is_canonical s = digits_only (magnitude s) (split_once b'.' (magnitude s))

-- `value.partition(".")[2]`
unfoldable pub fraction : String → String
unfolding split_once
fraction s = fraction_of (split_once b'.' s)

-- A `Decimal` of such a text is a sign and a number of units of ten to minus the fraction's length.
unfoldable pub units : String → ℕ
unfolding decimal join magnitude split_once
units s =
    let parts = split_once b'.' (magnitude s) in
    decimal (join (whole_of (magnitude s) parts) (fraction_of parts))

unfoldable pub scale : String → ℕ
unfolding fraction count_chars
scale s = 10 ^ count_chars (fraction s)

-- Outside of `-low` to `high`.
unfoldable pub is_outside : ℕ → ℕ → String → Bool
unfolding is_negative units scale
is_outside low high s =
    if is_negative s then ltb (low * scale s) (units s) else ltb (high * scale s) (units s)

unfoldable pub validate_decimal : String → ℕ → ℕ → ℕ → Result (Unit {0})
validate_decimal value fraction_digits low high = do
  reject (not (is_canonical value)) "live configuration contains a non-canonical decimal"
  reject (ltb fraction_digits (count_chars (fraction value)))
      "live configuration decimal precision is too large"
  reject (is_outside low high value) "live configuration decimal is outside its supported range"

-- The four values of a live configuration.
pub record Live : Type 0 where
  pub latitude : String
  pub longitude : String
  pub ellipsoid : String
  pub msl : String

unfoldable pub read_live : Dict String → Result Live
unfolding item
read_live d = do
  latitude ← item "center_latitude_deg" d
  longitude ← item "center_longitude_deg" d
  ellipsoid ← item "altitude_ellipsoid_m" d
  msl ← item "altitude_msl_m" d
  ok (record { latitude = latitude; longitude = longitude; ellipsoid = ellipsoid; msl = msl })

unfoldable pub check_live : Live → Result (Unit {0})
check_live l = do
  validate_decimal l.latitude 8 90 90
  validate_decimal l.longitude 8 180 180
  validate_decimal l.ellipsoid 3 12000 100000
  validate_decimal l.msl 3 12000 100000

abbrev pub field_line : String → String → String
field_line key value = join key (join "=" (join value "\n"))

-- `"".join(f"{key}={values[key]}\n" for key in LIVE_KEYS)`
unfoldable pub live_text : Live → String
unfolding join
live_text l = join (field_line "schema_version" "1") (
    join (field_line "center_latitude_deg" l.latitude) (
      join (field_line "center_longitude_deg" l.longitude)
        (join (field_line "altitude_ellipsoid_m" l.ellipsoid) (field_line "altitude_msl_m" l.msl))))

unfoldable pub parse_live : String → Result Live
parse_live raw = do
  reject (not (all_chars (λ c. ltb c 128) raw)) "live configuration must contain only ASCII"
  values ← parse_properties raw
  reject (not (has_exactly values live_keys) || not (is_text (lookup "schema_version" values) "1"))
      "live configuration schema/key set mismatch"
  l ← read_live values
  check_live l
  ok l

unfoldable pub validate_live_input : String → Result String
validate_live_input raw = do l ← parse_live raw; ok (live_text l)
