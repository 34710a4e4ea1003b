-- ===== src/BootConfig/Config.antt =====
-- `validate_config`, `validate_boot_input`, `resolve_boot_config`, `render_config` and
-- `read_private_config` of tools/automation/location_device.py.
pub mod Resolve
pub mod Rendered
pub mod Bounds
use zygveil.Base.{
  ℕ, ◌+◌, String, Bool, true, false, not, ◌&&◌, ◌||◌, ◌==◌, Option, none, some, List, [], ◌∷◌, Dict,
  keys, has_exactly, lookup, insert, item, is_text, all, all_chars, integer, ltb, leb, eqb, join,
  Result, ok, err, ◌>>=◌, ◌>>◌, reject, if◌then◌else◌,
}
use zygveil.Json.Print.{show}
use zygveil.SafeRead.{Target, read_config_bytes}
use zygveil.BootConfig.{
  float_keys, config_keys, boot_input_keys, max_config_generation, mismatch, read_properties,
}

-- Floating-point numbers, as far as the code computes with them. `float_of` is Python's `float`, none
-- where it raises ValueError; `negative n` is minus n.
pub record Floats : Type 1 where
  pub Float : Type 0
  pub float_of : String → Option Float
  pub is_finite : Float → Bool
  pub of_int : ℕ → Float
  pub negative : ℕ → Float
  pub at_most : Float → Float → Bool
  pub less : Float → Float → Bool

abbrev pub altitude_keys : List String
altitude_keys = "altitude_ellipsoid_m" ∷ "altitude_msl_m" ∷ []

abbrev pub unsigned_keys : List String
unsigned_keys =
    "horizontal_jitter_sigma_m" ∷ "horizontal_jitter_radius_m" ∷ "vertical_jitter_sigma_m"
    ∷ "speed_deadband_mps" ∷ "speed_max_mps" ∷ "bearing_min_speed_mps" ∷ []

abbrev pub jitter_keys : List String
jitter_keys =
    "horizontal_jitter_sigma_m" ∷ "horizontal_jitter_radius_m" ∷ "vertical_jitter_sigma_m" ∷ []

abbrev pub correlation_keys : List String
correlation_keys = "horizontal_correlation_time_s" ∷ "accuracy_correlation_time_s" ∷ []

abbrev pub speed_keys : List String
speed_keys = "speed_deadband_mps" ∷ "speed_max_mps" ∷ "bearing_min_speed_mps" ∷ []

abbrev pub one_of : String → List String → Bool
one_of s [] = false
one_of s (x ∷ xs) = s == x || one_of s xs

-- A test of each listed entry.
unfoldable pub check_each {ℓ} :
    {V : Type ℓ} → (V → Bool) → String → List String → Dict V → Result (Unit {0})
unfolding item join
check_each bad message [] d = ok tt
check_each bad message (k ∷ ks) d =
    item k d >>= λ v. (reject (bad v) (join message k) >> check_each bad message ks d)

-- `int(values[key])`
unfoldable pub config_integer : String → Dict String → Result (Bool × ℕ)
unfolding item integer
config_integer key values = do
  s ← item key values
  elim (integer s) [ none ↦ err "location seed/generation is not an integer" | some n ↦ ok n ]

abbrev pub is_negative_int : Bool × ℕ → Bool
is_negative_int (negative, n) = negative && not (eqb n 0)

-- `seed < 0 or seed > 2**64 - 1 or generation < 1 or generation > MAX_CONFIG_GENERATION`
abbrev pub outside_integers : Bool × ℕ → Bool × ℕ → Bool
outside_integers seed generation =
    is_negative_int seed
    || ltb 0xffffffffffffffff seed.1
    || (generation.0 || ltb generation.1 1)
    || ltb max_config_generation generation.1

unfoldable pub check_header : Dict String → Result (Unit {0})
unfolding item lookup
check_header values = do
  reject
      (not (has_exactly values config_keys) || not (is_text (lookup "schema_version" values) "1"))
      "location config schema/key set mismatch"
  enabled ← item "enabled" values
  reject (not (one_of enabled ("true" ∷ "false" ∷ []))) "location config enabled value is invalid"
  mode ← item "raw_gnss_mode" values
  reject (not (one_of mode ("blocked" ∷ "passthrough" ∷ [])))
      "only blocked or diagnostic passthrough Raw GNSS mode is supported"

unfoldable pub check_integers_of : Dict String → Result (Unit {0})
unfolding config_integer
check_integers_of values = do
  seed ← config_integer "random_seed" values
  generation ← config_integer "config_generation" values
  reject (outside_integers seed generation)
      "location seed/generation is outside its supported range"

-- `current[key] == requested[key] for key in BOOT_INPUT_KEYS`; both have every key.
abbrev pub same_entry : Option String → Option String → Bool
same_entry (some a) (some b) = a == b
same_entry _ _ = false

unfoldable pub same_input : List String → Dict String → Dict String → Bool
unfolding lookup
same_input [] requested current = true
same_input (k ∷ ks) requested current =
    same_entry (lookup k current) (lookup k requested) && same_input ks requested current

-- `candidate["enabled"] = …` and `candidate["config_generation"] = …`
unfoldable pub completed : Dict String → String → String → Dict String
unfolding insert
completed requested enabled generation =
    insert "config_generation" generation (insert "enabled" enabled requested)

-- `"".join(f"{key}={values[key]}\n" for key in …)`
unfoldable pub rendered : List String → Dict String → Result String
unfolding item join
rendered [] values = ok ""
rendered (k ∷ ks) values = do
  v ← item k values
  rest ← rendered ks values
  ok (join k (join "=" (join v (join "\n" rest))))

module _ (floats : Floats) where
  open floats use {Float, float_of, is_finite, of_int, negative, at_most, less}

  abbrev pub finite_number : String → Option Float → Result Float
  finite_number key none = err (join "location config value is not numeric: " key)
  finite_number key (some x) =
      if is_finite x then ok x else err (join "location config value is not finite: " key)

  unfoldable pub parse_floats : List String → Dict String → Result (Dict Float)
  unfolding item join
  parse_floats [] values = ok []
  parse_floats (k ∷ ks) values = do
    s ← item k values
    x ← finite_number k (float_of s)
    rest ← parse_floats ks values
    ok ((k, x) ∷ rest)

  abbrev pub outside : Float → Float → Float → Bool
  outside low high x = not (at_most low x && at_most x high)

  unfoldable pub check_position : Dict Float → Result (Unit {0})
  unfolding item check_each
  check_position parsed = do
    latitude ← item "center_latitude_deg" parsed
    reject (outside (negative 90) (of_int 90) latitude) "location latitude is outside [-90, 90]"
    longitude ← item "center_longitude_deg" parsed
    reject (outside (negative 180) (of_int 180) longitude)
        "location longitude is outside [-180, 180]"
    check_each (outside (negative 12000) (of_int 100000))
        "location altitude is outside its supported range: " altitude_keys parsed

  unfoldable pub check_motion : Dict Float → Result (Unit {0})
  unfolding item check_each
  check_motion parsed = do
    check_each (λ x. less x (of_int 0)) "location config value must be non-negative: " unsigned_keys
        parsed
    check_each (λ x. less (of_int 10000) x) "location jitter value exceeds supported maximum: "
        jitter_keys parsed
    check_each (λ x. not (less (of_int 0) x && at_most x (of_int 86400)))
        "location correlation time is outside its supported range: " correlation_keys parsed
    check_each (λ x. less (of_int 1000) x) "location speed value exceeds supported maximum: "
        speed_keys parsed
    deadband ← item "speed_deadband_mps" parsed
    bearing ← item "bearing_min_speed_mps" parsed
    maximum ← item "speed_max_mps" parsed
    reject (not (at_most deadband bearing && at_most bearing maximum))
        "location speed thresholds are not ordered"

  unfoldable pub validate_config : Dict String → Result (Unit {0})
  validate_config values = do
    check_header values
    parsed ← parse_floats float_keys values
    check_position parsed
    check_motion parsed
    check_integers_of values

  unfoldable pub validate_boot_input : Dict String → Result (Unit {0})
  validate_boot_input values = do
    reject (not (has_exactly values boot_input_keys))
        (mismatch "location boot input" boot_input_keys (keys values))
    validate_config (completed values "true" "1")

  -- The configuration to install, and whether it is another than the present one.
  unfoldable pub resolve_boot_config : Dict String → Dict String → Result (Dict String × Bool)
  unfolding show
  resolve_boot_config requested current = do
    validate_boot_input requested
    validate_config current
    if same_input boot_input_keys requested current then ok (current, false) else do
      generation ← config_integer "config_generation" current
      reject (leb max_config_generation generation.1) "installed config generation is exhausted"
      enabled ← item "enabled" current
      let candidate = completed requested enabled (show (generation.1 + 1))
      validate_config candidate
      ok (candidate, true)

  unfoldable pub render_config : Dict String → Result String
  render_config values = do validate_config values; rendered config_keys values

  unfoldable pub read_private_config : ℕ → Target → Result (Dict String)
  read_private_config getuid t = do
    raw ← read_config_bytes getuid t
    reject (not (all_chars (λ c. ltb c 128) raw)) "boot configuration must contain only ASCII"
    values ← read_properties false raw
    validate_boot_input values
    ok values
