-- ===== src/ServerVpn/Phase.antt =====
-- `require_phase` of tools/automation/server_vpn_oracle.py.
pub mod Signals
use zygveil.Base.{
  String, Bool, true, false, not, ◌&&◌, ◌||◌, ◌==◌, Option, none, some, List, [], ◌∷◌, Dict, lookup,
  any, contains, Result, ok, err, ◌>>=◌, ◌>>◌, reject, if◌then◌else◌,
}
use zygveil.Json.{Json, text, is_str, as_str}
use zygveil.ServerVpn.Records.{Item, Run, is_bool, first_of, detector_records}

-- The records of a dictionary of detectors.
abbrev pub records_of : Dict Item → List Item
records_of [] = []
records_of ((id, r) ∷ d) = r ∷ records_of d

abbrev pub is_mandatory : Item → Bool
is_mandatory r = is_bool (lookup "mandatory" r) true

unfoldable pub mandatory_of : List Item → List Item
unfolding lookup
mandatory_of [] = []
mandatory_of (r ∷ rs) = let rest = mandatory_of rs in if is_mandatory r then r ∷ rest else rest

-- A status that is a list or an object, on which the code raises TypeError, counts as none of them.
abbrev pub has_status : List String → Item → Bool
has_status statuses r = elim (as_str (lookup "status" r)) [
  | none ↦ false
  | some s ↦ contains statuses s
]

abbrev pub is_empty : List Item → Bool
is_empty [] = true
is_empty (r ∷ rs) = false

abbrev pub is_positive : Item → Bool
is_positive r = is_str (lookup "status" r) "POSITIVE"

abbrev pub is_negative : Item → Bool
is_negative r = is_str (lookup "status" r) "NEGATIVE"

abbrev pub is_sanitized : Item → Bool
is_sanitized r = is_str (lookup "projection_outcome" r) "present_sanitized"

-- What the active target has to show.
unfoldable pub check_target : List Item → Result (Unit {0})
unfolding lookup
check_target mandatory = do
  reject (any (λ r. not (is_negative r)) mandatory)
      "active target retains a mandatory public VPN signal"
  reject (any (λ r. not (is_sanitized r)) mandatory)
      "active target projection outcome is incomplete"

-- What the other three have to show.
unfoldable pub check_stock : List Item → Result (Unit {0})
unfolding lookup
check_stock mandatory = do
  reject (any (has_status ("INCONCLUSIVE" ∷ "ERROR" ∷ "UNAVAILABLE" ∷ [])) mandatory)
      "stock phase lacks a complete mandatory source record"
  reject (not (any is_positive mandatory))
      "stock phase did not observe a calibrated public VPN signal"

unfoldable pub check_source : Bool → List Item → Result (Unit {0})
check_source target_active mandatory = do
  reject (is_empty mandatory) "server-VPN phase has no mandatory source records"
  if target_active then check_target mandatory else check_stock mandatory

abbrev pub check_group : Bool → Option Json → List Item → Result (Unit {0})
check_group target_active none detectors = err "KeyError"
check_group target_active (some group) detectors =
    if is_str (some group) "server-vpn-link"
    then reject (any (has_status ("ERROR" ∷ [])) detectors)
        "server-VPN link phase contains an error"
    else check_source target_active (mandatory_of detectors)

unfoldable pub require_phase : Run → Bool → Result (Unit {0})
unfolding lookup
require_phase records target_active = do
  detectors ← detector_records records
  reject (any (has_status ("ERROR" ∷ "UNAVAILABLE" ∷ [])) (records_of detectors))
      "server-VPN phase contains an error or unavailable detector"
  first ← first_of records
  check_group target_active (lookup "group" first) (records_of detectors)
