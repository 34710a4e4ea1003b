-- ===== src/OracleInput.antt =====
-- `parse_properties`, `validate_decimal`, `validate_oracle_input_values` and
-- `read_private_oracle_input` of tools/automation/probe.py: the position that a probe is judged by.
pub mod Agree
use zygveil.Base.{
  ℕ, String, Bool, not, ◌||◌, ◌==◌, Option, none, some, List, [], ◌∷◌, Dict, lookup, has_exactly,
  has_key, insert, is_text, all_chars, ltb, strip, split_once, splitlines, join, count_chars,
  Result, ok, err, ◌>>=◌, ◌>>◌, reject, if◌then◌else◌,
}
use zygveil.SafeRead.{Target, read_oracle_bytes}
use zygveil.LiveControl.Input.{Live, live_keys, read_live, is_canonical, fraction, is_outside}

unfoldable pub enter_field : String → Dict String → String × String → Result (Dict String)
unfolding join
enter_field label values (left, right) =
    let key = strip left in
    let value = strip right in
    if key == "" || value == "" || has_key values key
    then err (join label " has an invalid or duplicate field")
    else ok (insert key value values)

unfoldable pub enter_split : String → Dict String → Option (String × String) → Result (Dict String)
unfolding enter_field
enter_split label values none = err (join label " has an invalid line")
enter_split label values (some parts) = enter_field label values parts

unfoldable pub enter_lines : String → Dict String → List String → Result (Dict String)
unfolding enter_split
enter_lines label values [] = ok values
enter_lines label values (raw_line ∷ lines) =
    let stripped = strip raw_line in
    (if stripped == "" then ok values else enter_split label values (split_once b'=' stripped))
    >>= λ more. enter_lines label more lines

unfoldable pub parse_labelled : String → List String → String → Result (Dict String)
unfolding enter_lines join
parse_labelled label expected text = do
  values ← enter_lines label [] (splitlines text)
  reject (not (has_exactly values expected)) (join label " schema/key set mismatch")
  ok values

-- The bounds are `-low` and `high`.
unfoldable pub validate_labelled : String → String → ℕ → ℕ → ℕ → Result (Unit {0})
unfolding join
validate_labelled label value fraction_digits low high = do
  reject (not (is_canonical value)) (join label " contains a non-canonical decimal")
  reject (ltb fraction_digits (count_chars (fraction value)))
      (join label " decimal precision is too large")
  reject (is_outside low high value) (join label " decimal is outside its supported range")

unfoldable pub check_oracle : String → Live → Result (Unit {0})
check_oracle label l = do
  validate_labelled label l.latitude 8 90 90
  validate_labelled label l.longitude 8 180 180
  validate_labelled label l.ellipsoid 3 12000 100000
  validate_labelled label l.msl 3 12000 100000

-- The values that are returned are these four, and the schema version "1".
unfoldable pub validate_oracle_input_values : String → Dict String → Result Live
unfolding join
validate_oracle_input_values label values = do
  reject (not (has_exactly values live_keys) || not (is_text (lookup "schema_version" values) "1"))
      (join label " schema/key set mismatch")
  l ← read_live values
  check_oracle label l
  ok l

unfoldable pub parse_oracle : String → Result Live
parse_oracle raw = do
  reject (not (all_chars (λ c. ltb c 128) raw)) "location oracle must contain only ASCII"
  values ← parse_labelled "location oracle" live_keys raw
  validate_oracle_input_values "location oracle" values

unfoldable pub read_private_oracle_input : ℕ → Target → Result Live
read_private_oracle_input getuid t = do raw ← read_oracle_bytes getuid t; parse_oracle raw
