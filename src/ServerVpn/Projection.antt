-- ===== src/ServerVpn/Projection.antt =====
-- `stable_observation`, `normalize_value`, `stable_run_projection` and `differing_test_ids` of
-- tools/automation/server_vpn_oracle.py. A float sorts by its spelling.
use zygveil.Base.{
  ℕ, String, Bool, true, false, not, ◌&&◌, ◌||◌, ◌==◌, Option, none, some, List, [], ◌∷◌, Dict,
  lookup, insert, contains, length, eqb, sort_by, join, Result, ok, err, ◌>>=◌, ◌>>◌, reject,
  if◌then◌else◌,
}
use zygveil.Json.{
  Json, null, bool, int, minus, real, text, arr, obj, Items, nil, cons, Fields, end, field, entries,
  fields, as_str,
}
use zygveil.Json.Print.{dumps}
use zygveil.Json.Same.{Reals, same, is_same}
use zygveil.ServerVpn.Records.{Item, Run, as_natural, detector_records}

abbrev pub volatile_scalar_test_ids : List String
volatile_scalar_test_ids =
    "sync.active.getter.down_kbps" ∷ "sync.active.getter.up_kbps"
    ∷ "sync.active.getter.signal_strength" ∷ []

abbrev inventory_ids : String → List String → List String
inventory_ids source rest =
    join source ".addresses"
    ∷ join source ".routes"
    ∷ join source ".dns"
    ∷ join source ".proxy"
    ∷ join source ".nat64"
    ∷ join source ".dhcp"
    ∷ rest

unfoldable pub volatile_network_inventory_test_ids : List String
unfolding join
volatile_network_inventory_test_ids = inventory_ids "link.active" (
    inventory_ids "link.all"
      (inventory_ids "link.callback.default" (inventory_ids "link.callback.broad" [])))

abbrev pub projection_outcomes : List String
projection_outcomes =
    "absent" ∷ "present_sanitized" ∷ "present_stock" ∷ "unavailable" ∷ "inconclusive" ∷ "error" ∷ []

abbrev pub items : Items → List Json
items nil = []
items (cons x xs) = x ∷ items xs

abbrev pub of_list : List Json → Items
of_list [] = nil
of_list (x ∷ xs) = cons x (of_list xs)

-- `{"diagnostic", "events"}`
abbrev pub is_diagnostic : String → Bool
is_diagnostic k = k == "diagnostic" || k == "events"

unfoldable mutual
  unfolding dumps fields sort_by

  pub normalize_value : Json → Json
  normalize_value (obj fs) = obj (fields (sort_by (λ x. x.0) (normalize_fields fs)))
  normalize_value (arr xs) = arr (of_list (sort_by dumps (normalize_items xs)))
  normalize_value null = null
  normalize_value (bool b) = bool b
  normalize_value (int n) = int n
  normalize_value (minus n) = minus n
  normalize_value (real s) = real s
  normalize_value (text s) = text s

  pub normalize_items : Items → List Json
  normalize_items nil = []
  normalize_items (cons x xs) = normalize_value x ∷ normalize_items xs

  pub normalize_fields : Fields → Dict Json
  normalize_fields end = []
  normalize_fields (field k v fs) =
      let rest = normalize_fields fs in
      if is_diagnostic k then rest else (k, normalize_value v) ∷ rest

-- `record.get('test_id')` inside a message
abbrev pub shown_id : Item → String
shown_id r = elim (as_str (lookup "test_id" r)) [ none ↦ "None" | some id ↦ id ]

abbrev pub has_id : List String → Item → Bool
has_id ids r = elim (as_str (lookup "test_id" r)) [ none ↦ false | some id ↦ contains ids id ]

abbrev pub is_object : Json → Bool
is_object (obj fs) = true
is_object _ = false

abbrev pub all_objects : Items → Bool
all_objects nil = true
all_objects (cons x xs) = is_object x && all_objects xs

abbrev pub valid_shape : Option ℕ → Option ℕ → Option Json → Bool
valid_shape (some network_count) (some link_count) (some (arr values)) =
    eqb (length (items values)) link_count && all_objects values
valid_shape _ _ _ = false

abbrev volatile_observation : Json → Json
volatile_observation outcome = obj (
    field "inventory" (text "runtime-volatile-ip-derived")
      (field "projection_outcome" outcome (field "shape" (text "valid") end)))

abbrev pub observed_outcome : Item → Option Json → Result Json
observed_outcome r (some (text outcome)) =
    if contains projection_outcomes outcome
    then ok (volatile_observation (text outcome))
    else err (join "server-VPN volatile network projection outcome is invalid: " (shown_id r))
observed_outcome r _ =
    err (join "server-VPN volatile network projection outcome is invalid: " (shown_id r))

-- The first branch, of an inventory that changes from run to run.
unfoldable pub observe_inventory : Item → Option Json → Result Json
unfolding lookup entries join
observe_inventory r (some (obj comparison)) = do
  let c = entries comparison
  reject
      (not (
        valid_shape (as_natural (lookup "network_count" c)) (as_natural (lookup "link_count" c))
          (lookup "values" c)))
      (join "server-VPN volatile network inventory shape is invalid: " (shown_id r))
  observed_outcome r (lookup "projection_outcome" r)
observe_inventory r _ = err (join "server-VPN volatile network inventory is invalid: " (shown_id r))

abbrev pub is_integer : Option Json → Bool
is_integer (some (int n)) = true
is_integer (some (minus n)) = true
is_integer _ = false

-- The last branch, of an observation without a comparison.
unfoldable pub observe_plain : Item → Fields → Result Json
unfolding lookup entries insert join normalize_value
observe_plain r raw =
    let normalized = normalize_fields raw in
    if has_id volatile_scalar_test_ids r
    then (if is_integer (lookup "value" (entries raw))
        then ok (obj (fields (insert "value" (text "runtime-volatile-integer") normalized)))
        else err (join "server-VPN volatile scalar is not an integer: " (shown_id r)))
    else ok (obj (fields normalized))

abbrev pub observe_comparison : Item → Fields → Option Json → Result Json
observe_comparison r raw (some (obj comparison)) = ok (obj comparison)
observe_comparison r raw _ = observe_plain r raw

abbrev pub observe_raw : Item → Option Json → Result Json
observe_raw r (some (obj raw)) =
    let comparison = lookup "comparison" (entries raw) in
    if has_id volatile_network_inventory_test_ids r
    then observe_inventory r comparison
    else observe_comparison r raw comparison
observe_raw r _ = err (join "server-VPN raw observation is invalid: " (shown_id r))

unfoldable pub stable_observation : Item → Result Json
unfolding lookup entries join
stable_observation r = observe_raw r (lookup "raw_observations" r)

abbrev pub required : Option Json → Result Json
required none = err "KeyError"
required (some v) = ok v

unfoldable pub project_record : Item → Result Json
unfolding lookup
project_record r = do
  status ← required (lookup "status" r)
  observation ← stable_observation r
  ok (obj (field "status" status (field "observation" observation end)))

unfoldable pub project_records : Dict Item → Result (Dict Json)
project_records [] = ok []
project_records ((id, r) ∷ d) = do
  projected ← project_record r
  rest ← project_records d
  ok ((id, projected) ∷ rest)

unfoldable pub stable_run_projection : Run → Result (Dict Json)
unfolding sort_by
stable_run_projection records = do
  detectors ← detector_records records
  project_records (sort_by (λ x. x.0) detectors)

module _ (reals : Reals) where
  -- `left == right` for two projections
  unfoldable pub same_projection : Dict Json → Dict Json → Bool
  unfolding fields
  same_projection left right = same reals (obj (fields left)) (obj (fields right))

  abbrev pub differs : Dict Json → String × Json → Bool
  differs right (id, v) = not (is_same reals (lookup id right) v)

  -- `left[id] != right[id]`. Both have the same ids.
  abbrev pub differing : Dict Json → Dict Json → List String
  differing [] right = []
  differing ((id, v) ∷ left) right =
      let rest = differing left right in if differs right (id, v) then id ∷ rest else rest

  unfoldable pub differing_test_ids : Dict Json → Dict Json → List String
  unfolding lookup sort_by
  differing_test_ids left right = sort_by (λ id. id) (differing left right)
