-- ===== src/BootConfig.antt =====
-- The boot configuration of tools/automation/location_device.py: its keys and `parse_properties`.
pub mod Config
pub mod Runtime
pub mod Control
pub mod State
pub mod Installed
use zygveil.Base.{
  ℕ, suc, String, Bool, not, ◌&&◌, ◌||◌, ◌==◌, Option, none, some, List, [], ◌∷◌, Dict, keys,
  has_exactly, has_key, contains, insert, sort_by, strip, split_once, splitlines, starts_with, join,
  Result, ok, err, ◌>>=◌, ◌>>◌, reject, if◌then◌else◌,
}
use zygveil.Json.Print.{show}

-- `FLOAT_KEYS`, which the code goes through in no fixed order
abbrev pub float_keys : List String
float_keys =
    "center_latitude_deg" ∷ "center_longitude_deg" ∷ "altitude_ellipsoid_m" ∷ "altitude_msl_m"
    ∷ "horizontal_jitter_sigma_m" ∷ "horizontal_jitter_radius_m" ∷ "horizontal_correlation_time_s"
    ∷ "vertical_jitter_sigma_m" ∷ "accuracy_correlation_time_s" ∷ "speed_deadband_mps"
    ∷ "speed_max_mps" ∷ "bearing_min_speed_mps" ∷ []

abbrev pub config_keys : List String
config_keys =
    "schema_version" ∷ "enabled" ∷ "raw_gnss_mode" ∷ "center_latitude_deg" ∷ "center_longitude_deg"
    ∷ "altitude_ellipsoid_m" ∷ "altitude_msl_m" ∷ "horizontal_jitter_sigma_m"
    ∷ "horizontal_jitter_radius_m" ∷ "horizontal_correlation_time_s" ∷ "vertical_jitter_sigma_m"
    ∷ "accuracy_correlation_time_s" ∷ "speed_deadband_mps" ∷ "speed_max_mps"
    ∷ "bearing_min_speed_mps" ∷ "random_seed" ∷ "config_generation" ∷ []

abbrev pub boot_input_keys : List String
boot_input_keys =
    "schema_version" ∷ "raw_gnss_mode" ∷ "center_latitude_deg" ∷ "center_longitude_deg"
    ∷ "altitude_ellipsoid_m" ∷ "altitude_msl_m" ∷ "horizontal_jitter_sigma_m"
    ∷ "horizontal_jitter_radius_m" ∷ "horizontal_correlation_time_s" ∷ "vertical_jitter_sigma_m"
    ∷ "accuracy_correlation_time_s" ∷ "speed_deadband_mps" ∷ "speed_max_mps"
    ∷ "bearing_min_speed_mps" ∷ "random_seed" ∷ []

abbrev pub max_config_generation : ℕ
max_config_generation = 0x3fffffffffffffff

-- `xs - ys`, of sets of texts
abbrev pub without : List String → List String → List String
without [] ys = []
without (x ∷ xs) ys = let rest = without xs ys in if contains ys x then rest else x ∷ rest

abbrev more_shown : List String → String
more_shown [] = "]"
more_shown (x ∷ xs) = join ", '" (join x (join "'" (more_shown xs)))

-- `f"{sorted(xs)}"`, of texts without a quote, a backslash or an unprintable letter
unfoldable pub shown_set : List String → String
unfolding join sort_by
shown_set xs = elim (sort_by (λ x. x) xs) [
  | [] ↦ "[]"
  | x ∷ rest ↦ join "['" (join x (join "'" (more_shown rest)))
]

unfoldable pub mismatch : String → List String → List String → String
unfolding join shown_set
mismatch label expected found = join label (
    join " key mismatch: missing=" (
      join (shown_set (without expected found))
        (join ", unexpected=" (shown_set (without found expected)))))

unfoldable pub put_property : ℕ → Dict String → Option (String × String) → Result (Dict String)
unfolding join show strip insert
put_property line_number values none =
    err (join "property line " (join (show line_number) " has no equals sign"))
put_property line_number values (some (left, right)) =
    let key = strip left in
    let value = strip right in
    if key == "" || value == "" || has_key values key
    then err (join "invalid or duplicate property at line " (show line_number))
    else ok (insert key value values)

-- One round of the loop. A blank line and a comment are skipped.
unfoldable pub put_line : ℕ → Dict String → String → Result (Dict String)
unfolding put_property starts_with split_once
put_line line_number values raw_line =
    let line = strip raw_line in
    if line == "" || starts_with "#" line
    then ok values
    else put_property line_number values (split_once b'=' line)

unfoldable pub put_lines : ℕ → Dict String → List String → Result (Dict String)
unfolding put_line
put_lines line_number values [] = ok values
put_lines line_number values (line ∷ lines) =
    put_line line_number values line >>= λ more. put_lines (suc line_number) more lines

-- `parse_properties(text)` and `parse_properties(text, exact_config=True)`
unfoldable pub read_properties : Bool → String → Result (Dict String)
unfolding put_lines mismatch
read_properties exact_config text = do
  values ← put_lines 1 [] (splitlines text)
  reject (exact_config && not (has_exactly values config_keys))
      (mismatch "location config" config_keys (keys values))
  ok values
