-- ===== src/LiveControl/Input/RoundTrip.antt =====
-- The text that the helper is sent, read again by tools/automation/location_live_control.py.
use zygveil.Base.{
  ℕ, String, ◌≡◌, refl, sym, ap, subst, ◌∙◌, Bool, true, false, not, ◌||◌, [], ◌∷◌, Dict, has_key,
  has_exactly, is_text, lookup, insert, item, all_chars, all_chars-join, is_name, IsField,
  join-IsField, IsClean, join, join_nil, splitlines, splitlines-join, ltb, ok, ◌>>=◌, >>=-eq-ok,
  >>-eq-ok, reject->>-eq-ok, ok-injective, not-eq-false,
}
use zygveil.Json.Members.{join_assoc}
use zygveil.LiveControl.Properties.{add_field, add_split, add_line, add_lines, parse_properties}
use zygveil.LiveControl.Input.{
  Live, live_keys, is_canonical, validate_decimal, read_live, check_live, field_line, live_text,
  parse_live, validate_live_input,
}
use zygveil.LiveControl.Input.Letters.{canonical-IsClean, canonical-ascii}

-- A written line is entered.
add_line-field :
    (d : Dict String) (k v : String)
    → IsField k v
    → IsClean v
    → has_key d k ≡ false
    → add_line d (join k (join "=" v)) ≡ ok (insert k v d)
unfolding add_line add_split add_field
add_line-field d k v f clean fresh =
    rw (f.tight, f.filled, f.parts, f.name, clean.tight, f.named, clean.filled, fresh) refl

splitlines-field_line :
    (k v rest : String)
    → IsField k v
    → splitlines (join (field_line k v) rest) ≡ join k (join "=" v) ∷ splitlines rest
unfolding join
splitlines-field_line k v rest f =
    ap splitlines (
      join_assoc k (join "=" (join v "\n")) rest
      ∙ (ap (λ x. join k (join "=" x)) (join_assoc v "\n" rest)
          ∙ sym (join_assoc k (join "=" v) (join "\n" rest))))
    ∙ splitlines-join (join k (join "=" v)) rest f.inline

-- A value that may be written.
record IsValue (k v : String) : Type 0 where
  field_of : IsField k v
  clean : IsClean v
  ascii : all_chars (λ c. ltb c 128) v ≡ true

decimal-IsValue : (k v : String) → is_name k ≡ true → is_canonical v ≡ true → IsValue k v
decimal-IsValue k v name h = record {
  field_of = join-IsField k v name (canonical-IsClean v h);
  clean = canonical-IsClean v h;
  ascii = canonical-ascii v h;
}

one_canonical : is_canonical "1" ≡ true
unfolding is_canonical
one_canonical = refl

validated_canonical :
    (v : String) (fraction_digits low high : ℕ)
    → validate_decimal v fraction_digits low high ≡ ok tt
    → is_canonical v ≡ true
unfolding validate_decimal
validated_canonical v fraction_digits low high h =
    not-eq-false _ ((reject->>-eq-ok (not (is_canonical v)) _ _ h).0)

live_names :
    (is_name "schema_version" ≡ true)
    × (is_name "center_latitude_deg" ≡ true)
    × (is_name "center_longitude_deg" ≡ true)
    × (is_name "altitude_ellipsoid_m" ≡ true)
    × (is_name "altitude_msl_m" ≡ true)
unfolding all_chars
live_names = (refl, refl, refl, refl, refl)

add_lines-field :
    (d e : Dict String) (k v rest : String)
    → IsValue k v
    → has_key d k ≡ false
    → add_lines (insert k v d) (splitlines rest) ≡ ok e
    → add_lines d (splitlines (join (field_line k v) rest)) ≡ ok e
unfolding add_lines
add_lines-field d e k v rest value fresh h =
    ap (add_lines d) (splitlines-field_line k v rest value.field_of)
    ∙ (ap (λ r. r >>= λ more. add_lines more (splitlines rest))
          (add_line-field d k v value.field_of value.clean fresh)
        ∙ h)

no_more_lines : (d : Dict String) → add_lines d (splitlines "") ≡ ok d
unfolding add_lines splitlines
no_more_lines d = refl

abbrev live_entries : Live → Dict String
live_entries l =
    ("schema_version", "1")
    ∷ ("center_latitude_deg", l.latitude)
    ∷ ("center_longitude_deg", l.longitude)
    ∷ ("altitude_ellipsoid_m", l.ellipsoid)
    ∷ ("altitude_msl_m", l.msl)
    ∷ []

-- The five values of the text.
record AreValues (l : Live) : Type 0 where
  schema : IsValue "schema_version" "1"
  latitude : IsValue "center_latitude_deg" l.latitude
  longitude : IsValue "center_longitude_deg" l.longitude
  ellipsoid : IsValue "altitude_ellipsoid_m" l.ellipsoid
  msl : IsValue "altitude_msl_m" l.msl

check_live-AreValues : (l : Live) → check_live l ≡ ok tt → AreValues l
unfolding check_live
check_live-AreValues l h =
    let (a, r₁) = >>-eq-ok (validate_decimal l.latitude 8 90 90) _ h in
    let (b, r₂) = >>-eq-ok (validate_decimal l.longitude 8 180 180) _ r₁ in
    let (c, d) = >>-eq-ok (validate_decimal l.ellipsoid 3 12000 100000) _ r₂ in
    let (n₁, n₂, n₃, n₄, n₅) = live_names in
    record {
      schema = decimal-IsValue "schema_version" "1" n₁ one_canonical;
      latitude =
          decimal-IsValue "center_latitude_deg" l.latitude n₂
            (validated_canonical l.latitude 8 90 90 a);
      longitude =
          decimal-IsValue "center_longitude_deg" l.longitude n₃
            (validated_canonical l.longitude 8 180 180 b);
      ellipsoid =
          decimal-IsValue "altitude_ellipsoid_m" l.ellipsoid n₄
            (validated_canonical l.ellipsoid 3 12000 100000 c);
      msl = decimal-IsValue "altitude_msl_m" l.msl n₅ (validated_canonical l.msl 3 12000 100000 d);
    }

parse_properties-live_text :
    (l : Live) → AreValues l → parse_properties (live_text l) ≡ ok (live_entries l)
unfolding parse_properties live_text insert
parse_properties-live_text l v =
    let d₁ : Dict String = ("schema_version", "1") ∷ [] in
    let d₂ : Dict String = ("schema_version", "1") ∷ ("center_latitude_deg", l.latitude) ∷ [] in
    let d₃ : Dict String =
      ("schema_version", "1")
      ∷ ("center_latitude_deg", l.latitude)
      ∷ ("center_longitude_deg", l.longitude)
      ∷ [] in
    let d₄ : Dict String =
      ("schema_version", "1")
      ∷ ("center_latitude_deg", l.latitude)
      ∷ ("center_longitude_deg", l.longitude)
      ∷ ("altitude_ellipsoid_m", l.ellipsoid)
      ∷ [] in
    let last = field_line "altitude_msl_m" l.msl in
    let final : add_lines d₄ (splitlines last) ≡ ok (live_entries l) =
      ap (λ x. add_lines d₄ (splitlines x)) (sym (join_nil last))
      ∙ add_lines-field d₄ (live_entries l) "altitude_msl_m" l.msl "" v.msl refl
          (no_more_lines (live_entries l)) in
    add_lines-field [] (live_entries l) "schema_version" "1" _ v.schema refl (
      add_lines-field d₁ (live_entries l) "center_latitude_deg" l.latitude _ v.latitude refl (
        add_lines-field d₂ (live_entries l) "center_longitude_deg" l.longitude _ v.longitude refl (
          add_lines-field d₃ (live_entries l) "altitude_ellipsoid_m" l.ellipsoid _ v.ellipsoid refl
            final)))

abbrev is_ascii : String → Bool
is_ascii = all_chars (λ c. ltb c 128)

field_line-ascii :
    (k v : String) → is_ascii k ≡ true → is_ascii v ≡ true → is_ascii (field_line k v) ≡ true
unfolding all_chars
field_line-ascii k v name value =
    all_chars-join (λ c. ltb c 128) k (join "=" (join v "\n")) name
      (all_chars-join (λ c. ltb c 128) "=" (join v "\n") refl
        (all_chars-join (λ c. ltb c 128) v "\n" value refl))

live_text-ascii : (l : Live) → AreValues l → is_ascii (live_text l) ≡ true
unfolding live_text all_chars
live_text-ascii l v =
    let ascii = all_chars-join (λ c. ltb c 128) in
    let schema = field_line "schema_version" "1" in
    let latitude = field_line "center_latitude_deg" l.latitude in
    let longitude = field_line "center_longitude_deg" l.longitude in
    let ellipsoid = field_line "altitude_ellipsoid_m" l.ellipsoid in
    let msl = field_line "altitude_msl_m" l.msl in
    ascii schema (join latitude (join longitude (join ellipsoid msl)))
      (field_line-ascii "schema_version" "1" refl v.schema.ascii)
      (ascii latitude (join longitude (join ellipsoid msl))
        (field_line-ascii "center_latitude_deg" l.latitude refl v.latitude.ascii)
        (ascii longitude (join ellipsoid msl)
          (field_line-ascii "center_longitude_deg" l.longitude refl v.longitude.ascii)
          (ascii ellipsoid msl
            (field_line-ascii "altitude_ellipsoid_m" l.ellipsoid refl v.ellipsoid.ascii)
            (field_line-ascii "altitude_msl_m" l.msl refl v.msl.ascii))))

live_entries-keys :
    (l : Live)
    → (not (has_exactly (live_entries l) live_keys)
        || not (is_text (lookup "schema_version" (live_entries l)) "1"))
      ≡ false
unfolding lookup
live_entries-keys l = refl

read_live-live_entries : (l : Live) → read_live (live_entries l) ≡ ok l
unfolding read_live item lookup
read_live-live_entries l = refl

parse_live-live_text : (l : Live) → check_live l ≡ ok tt → parse_live (live_text l) ≡ ok l
unfolding parse_live
parse_live-live_text l checked =
    let v = check_live-AreValues l checked in
    rw
      (
        live_text-ascii l v,
        parse_properties-live_text l v,
        live_entries-keys l,
        read_live-live_entries l,
        checked,
      )
      refl

parse_live-checked : (raw : String) (l : Live) → parse_live raw ≡ ok l → check_live l ≡ ok tt
unfolding parse_live
parse_live-checked raw l h =
    let (_, r₁) = reject->>-eq-ok (not (all_chars (λ c. ltb c 128) raw)) _ _ h in
    let (values, _, r₂) = >>=-eq-ok (parse_properties raw) _ r₁ in
    let (_, r₃) =
      reject->>-eq-ok
        (not (has_exactly values live_keys) || not (is_text (lookup "schema_version" values) "1")) _
        _ r₂ in
    let (m, _, r₄) = >>=-eq-ok (read_live values) _ r₃ in
    let (checked, same) = >>-eq-ok (check_live m) (ok m) r₄ in
    subst (λ x. check_live x ≡ ok tt) (ok-injective same) checked

-- The text that the helper is sent for an accepted file is itself accepted, and is sent as it is.
pub validate_live_input_again :
    (raw text : String) → validate_live_input raw ≡ ok text → validate_live_input text ≡ ok text
unfolding validate_live_input
validate_live_input_again raw text h =
    let (l, parsed, same) = >>=-eq-ok (parse_live raw) _ h in
    let again = parse_live-live_text l (parse_live-checked raw l parsed) in
    subst (λ x. (parse_live x >>= λ m. ok (live_text m)) ≡ ok x) (ok-injective same)
      (ap (λ r. r >>= λ m. ok (live_text m)) again)
