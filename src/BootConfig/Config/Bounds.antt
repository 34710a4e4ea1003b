-- ===== src/BootConfig/Config/Bounds.antt =====
-- What `validate_config` of tools/automation/location_device.py accepts.
use zygveil.Base.{
  ℕ, ◌≤◌, String, ◌≡◌, refl, ap, subst, ◌∙◌, Bool, true, false, not, ◌&&◌, ◌||◌, ◌==◌, Option, none,
  some, List, [], ◌∷◌, contains, Dict, has_exactly, is_text, lookup, item, item-lookup, ok,
  >>=-eq-ok, >>-eq-ok, reject->>-eq-ok, reject-eq-ok, ok-injective, not-eq-false, Bool-cases, inl,
  inr, eq_iff, arith,
}
use zygveil.BootConfig.{float_keys, config_keys, max_config_generation}
use zygveil.BootConfig.Config.{
  Floats, altitude_keys, unsigned_keys, jitter_keys, correlation_keys, speed_keys, one_of,
  check_each, config_integer, outside_integers, is_negative_int, check_header, check_integers_of,
  finite_number, parse_floats, outside, check_position, check_motion, validate_config,
}

-- Each listed entry is there, and the test for a bad one fails on it.
abbrev pub Each {ℓ} : {V : Type ℓ} → (V → Bool) → List String → Dict V → Type ℓ
Each {V = V} bad ks d =
    (k : String) → contains ks k ≡ true → (v : V) × (lookup k d ≡ some v) × (bad v ≡ false)

check_each-Each {ℓ} :
    {V : Type ℓ} (bad : V → Bool) (message : String) (ks : List String) (d : Dict V)
    → check_each bad message ks d ≡ ok tt
    → Each bad ks d
unfolding check_each
check_each-Each bad message [] d h k listed = absurd (ground arith)
check_each-Each bad message (x ∷ ks) d h k listed =
    let (v, found, r) = >>=-eq-ok (item x d) _ h in
    let (fine, rest) = reject->>-eq-ok (bad v) _ _ r in
    elim (Bool-cases (k == x)) [
      | inl same ↦ (v, ap (λ y. lookup y d) ((eq_iff k x).0 same) ∙ item-lookup x d v found, fine)
      | inr other ↦ check_each-Each bad message ks d rest k (rw other at listed)
    ]

module _ (floats : Floats) where
  open floats use {Float, float_of, is_finite, of_int, negative, at_most, less}

  -- An entry is a finite number.
  pub record IsNumber (values : Dict String) (parsed : Dict Float) (k : String) : Type 0 where
    pub spelling : String
    pub number : Float
    pub there : lookup k values ≡ some spelling
    pub read : float_of spelling ≡ some number
    pub finite : is_finite number ≡ true
    pub entered : lookup k parsed ≡ some number

  finite_number-read :
      (key : String) (o : Option Float) (x : Float)
      → finite_number floats key o ≡ ok x
      → (o ≡ some x) × (is_finite x ≡ true)
  finite_number-read key none x h = absurd (ground arith)
  finite_number-read key (some y) x h = elim (Bool-cases (is_finite y)) [
    | inl finite ↦
        let same : y ≡ x = ok-injective (rw finite at h) in
        (ap some same, subst (λ z. is_finite z ≡ true) same finite)
    | inr other ↦ absurd (ground arith)
  ]

  parse_floats-IsNumber :
      (ks : List String) (values : Dict String) (parsed : Dict Float) (k : String)
      → parse_floats floats ks values ≡ ok parsed
      → contains ks k ≡ true
      → IsNumber values parsed k
  unfolding parse_floats lookup
  parse_floats-IsNumber [] values parsed k h listed = absurd (ground arith)
  parse_floats-IsNumber (x ∷ ks) values parsed k h listed =
      let (s, found, r₁) = >>=-eq-ok (item x values) _ h in
      let (n, number, r₂) = >>=-eq-ok (finite_number floats x (float_of s)) _ r₁ in
      let (rest, tail, r₃) = >>=-eq-ok (parse_floats floats ks values) _ r₂ in
      let (read, finite) = finite_number-read x (float_of s) n number in
      let same : (x, n) ∷ rest ≡ parsed = ok-injective r₃ in
      subst (λ p. IsNumber values p k) same
        (elim (Bool-cases (x == k)) [
          | inl here ↦ record {
            spelling = s;
            number = n;
            there =
                subst (λ y. lookup y values ≡ some s) ((eq_iff x k).0 here)
                  (item-lookup x values s found);
            read = read;
            finite = finite;
            entered = rw here refl;
          }
          | inr later ↦
              let more =
                parse_floats-IsNumber ks values rest k tail
                  (ground (arith, eq_iff x k, eq_iff k x)) in
              record {
                spelling = more.spelling;
                number = more.number;
                there = more.there;
                read = more.read;
                finite = more.finite;
                entered = rw later more.entered;
              }
        ])

  -- The ranges of the numbers.
  pub record AreWithin (parsed : Dict Float) : Type 0 where
    pub latitude :
        Each (outside floats (negative 90) (of_int 90)) ("center_latitude_deg" ∷ []) parsed
    pub longitude :
        Each (outside floats (negative 180) (of_int 180)) ("center_longitude_deg" ∷ []) parsed
    pub altitudes : Each (outside floats (negative 12000) (of_int 100000)) altitude_keys parsed
    pub unsigned : Each (λ x. less x (of_int 0)) unsigned_keys parsed
    pub jitters : Each (λ x. less (of_int 10000) x) jitter_keys parsed
    pub correlations :
        Each (λ x. not (less (of_int 0) x && at_most x (of_int 86400))) correlation_keys parsed
    pub speeds : Each (λ x. less (of_int 1000) x) speed_keys parsed
    pub deadband : Float
    pub bearing : Float
    pub maximum : Float
    pub has_deadband : lookup "speed_deadband_mps" parsed ≡ some deadband
    pub has_bearing : lookup "bearing_min_speed_mps" parsed ≡ some bearing
    pub has_maximum : lookup "speed_max_mps" parsed ≡ some maximum
    pub ordered : (at_most deadband bearing && at_most bearing maximum) ≡ true

  one_entry :
      (bad : Float → Bool) (key : String) (parsed : Dict Float) (x : Float)
      → item key parsed ≡ ok x
      → bad x ≡ false
      → Each bad (key ∷ []) parsed
  one_entry bad key parsed x found fine k listed =
      let same : k ≡ key = ground (arith, eq_iff k key) in
      (x, ap (λ y. lookup y parsed) same ∙ item-lookup key parsed x found, fine)

  checks-AreWithin :
      (parsed : Dict Float)
      → check_position floats parsed ≡ ok tt
      → check_motion floats parsed ≡ ok tt
      → AreWithin parsed
  unfolding check_position check_motion
  checks-AreWithin parsed h m =
      let (la, a, r₁) = >>=-eq-ok (item "center_latitude_deg" parsed) _ h in
      let (latitude, r₂) = reject->>-eq-ok (outside floats (negative 90) (of_int 90) la) _ _ r₁ in
      let (lo, b, r₃) = >>=-eq-ok (item "center_longitude_deg" parsed) _ r₂ in
      let (longitude, altitudes) =
        reject->>-eq-ok (outside floats (negative 180) (of_int 180) lo) _ _ r₃ in
      let (unsigned, s₁) =
        >>-eq-ok
          (check_each (λ x. less x (of_int 0)) "location config value must be non-negative: "
            unsigned_keys parsed)
          _ m in
      let (jitters, s₂) =
        >>-eq-ok
          (check_each (λ x. less (of_int 10000) x)
            "location jitter value exceeds supported maximum: " jitter_keys parsed)
          _ s₁ in
      let (correlations, s₃) =
        >>-eq-ok
          (check_each (λ x. not (less (of_int 0) x && at_most x (of_int 86400)))
            "location correlation time is outside its supported range: " correlation_keys parsed)
          _ s₂ in
      let (speeds, s₄) =
        >>-eq-ok
          (check_each (λ x. less (of_int 1000) x) "location speed value exceeds supported maximum: "
            speed_keys parsed)
          _ s₃ in
      let (d, c, s₅) = >>=-eq-ok (item "speed_deadband_mps" parsed) _ s₄ in
      let (e, f, s₆) = >>=-eq-ok (item "bearing_min_speed_mps" parsed) _ s₅ in
      let (g, i, s₇) = >>=-eq-ok (item "speed_max_mps" parsed) _ s₆ in
      let ordered =
        reject-eq-ok (not (at_most d e && at_most e g)) "location speed thresholds are not ordered"
          s₇ in
      record {
        latitude = one_entry _ "center_latitude_deg" parsed la a latitude;
        longitude = one_entry _ "center_longitude_deg" parsed lo b longitude;
        altitudes =
            check_each-Each _ "location altitude is outside its supported range: " altitude_keys
              parsed altitudes;
        unsigned =
            check_each-Each _ "location config value must be non-negative: " unsigned_keys parsed
              unsigned;
        jitters =
            check_each-Each _ "location jitter value exceeds supported maximum: " jitter_keys parsed
              jitters;
        correlations =
            check_each-Each _ "location correlation time is outside its supported range: "
              correlation_keys parsed correlations;
        speeds =
            check_each-Each _ "location speed value exceeds supported maximum: " speed_keys parsed
              speeds;
        deadband = d;
        bearing = e;
        maximum = g;
        has_deadband = item-lookup "speed_deadband_mps" parsed d c;
        has_bearing = item-lookup "bearing_min_speed_mps" parsed e f;
        has_maximum = item-lookup "speed_max_mps" parsed g i;
        ordered = not-eq-false _ ordered;
      }

-- The names, the two choices and the two integers.
pub record IsSettled (values : Dict String) : Type 0 where
  pub exact : has_exactly values config_keys ≡ true
  pub schema : is_text (lookup "schema_version" values) "1" ≡ true
  pub enabled :
      (s : String) × (lookup "enabled" values ≡ some s) × (one_of s ("true" ∷ "false" ∷ []) ≡ true)
  pub mode :
      (s : String) × (lookup "raw_gnss_mode" values ≡ some s)
      × (one_of s ("blocked" ∷ "passthrough" ∷ []) ≡ true)
  pub seed :
      (n : Bool × ℕ) × (config_integer "random_seed" values ≡ ok n)
      × (is_negative_int n ≡ false)
      × (n.1 ≤ 0xffffffffffffffff)
  pub generation :
      (n : Bool × ℕ) × (config_integer "config_generation" values ≡ ok n)
      × (n.0 ≡ false)
      × (1 ≤ n.1)
      × (n.1 ≤ max_config_generation)

checks-IsSettled :
    (values : Dict String)
    → check_header values ≡ ok tt
    → check_integers_of values ≡ ok tt
    → IsSettled values
unfolding check_header check_integers_of
checks-IsSettled values h i =
    let (header, r₁) =
      reject->>-eq-ok
        (not (has_exactly values config_keys) || not (is_text (lookup "schema_version" values) "1"))
        _ _ h in
    let (e, a, r₂) = >>=-eq-ok (item "enabled" values) _ r₁ in
    let (enabled, r₃) = reject->>-eq-ok (not (one_of e ("true" ∷ "false" ∷ []))) _ _ r₂ in
    let (m, b, r₄) = >>=-eq-ok (item "raw_gnss_mode" values) _ r₃ in
    let mode = reject-eq-ok (not (one_of m ("blocked" ∷ "passthrough" ∷ []))) _ r₄ in
    let (s, seed, s₁) = >>=-eq-ok (config_integer "random_seed" values) _ i in
    let (g, generation, s₂) = >>=-eq-ok (config_integer "config_generation" values) _ s₁ in
    let inside = reject-eq-ok (outside_integers s g) _ s₂ in
    record {
      exact = ground arith;
      schema = ground arith;
      enabled = (e, item-lookup "enabled" values e a, not-eq-false _ enabled);
      mode = (m, item-lookup "raw_gnss_mode" values m b, not-eq-false _ mode);
      seed = (s, seed, ground arith, ground arith);
      generation = (g, generation, ground arith, ground arith, ground arith);
    }

-- An accepted configuration.
pub record IsConfig (floats : Floats) (values : Dict String) : Type 0 where
  pub settled : IsSettled values
  pub parsed : Dict floats.Float
  pub numbers : (k : String) → contains float_keys k ≡ true → IsNumber floats values parsed k
  pub within : AreWithin floats parsed

-- A configuration that is accepted has exactly the known keys; its floating-point values are finite
-- numbers within their ranges, the speed thresholds in order; and the seed and the generation are
-- integers that fit their fields.
pub validate_config_sound :
    (floats : Floats) (values : Dict String)
    → validate_config floats values ≡ ok tt
    → IsConfig floats values
unfolding validate_config
validate_config_sound floats values h =
    let (header, r₁) = >>-eq-ok (check_header values) _ h in
    let (parsed, read, r₂) = >>=-eq-ok (parse_floats floats float_keys values) _ r₁ in
    let (position, r₃) = >>-eq-ok (check_position floats parsed) _ r₂ in
    let (motion, integers) = >>-eq-ok (check_motion floats parsed) _ r₃ in
    record {
      settled = checks-IsSettled values header integers;
      parsed = parsed;
      numbers = λ k listed. parse_floats-IsNumber floats float_keys values parsed k read listed;
      within = checks-AreWithin floats parsed position motion;
    }
