-- ===== src/Tests/OracleInput.antt =====
-- The agreement of the oracle's parser and the live one at a concrete text.
use zygveil.Base.{◌≡◌, ◌↔◌, refl, String, splitlines, strip, insert, ok}
use zygveil.LiveControl.Input.{Live, parse_live, is_canonical, is_outside, fraction, read_live}
use zygveil.OracleInput.{
  parse_labelled, check_oracle, validate_labelled, validate_oracle_input_values, parse_oracle,
}
use zygveil.OracleInput.Agree.{parse_oracle_iff_live}

abbrev text : String
text =
    "schema_version=1\ncenter_latitude_deg=60.5\ncenter_longitude_deg=-24.25\naltitude_ellipsoid_m=35\naltitude_msl_m=5.125\n"

abbrev values : Live
values = record { latitude = "60.5"; longitude = "-24.25"; ellipsoid = "35"; msl = "5.125" }

accepted : parse_oracle text ≡ ok values
unfolding parse_oracle parse_labelled splitlines strip insert validate_oracle_input_values
    check_oracle validate_labelled is_canonical is_outside fraction read_live
accepted = refl

parse_oracle_iff_live_example : parse_oracle text ≡ ok values ↔ parse_live text ≡ ok values
parse_oracle_iff_live_example = parse_oracle_iff_live text values
