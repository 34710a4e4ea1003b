-- ===== src/ServerVpn/Records.antt =====
-- `detector_records`, `run_interval` and `require_identity` of
-- tools/automation/server_vpn_oracle.py. A test id that is no text counts as a missing one.
use zygveil.Base.{
  ℕ, String, Bool, true, false, not, ◌||◌, ◌==◌, Option, none, some, List, [], ◌∷◌, Dict, lookup,
  insert, any, eqb, starts_with, replace_text, Result, ok, err, ◌>>=◌, ◌>>◌, reject, if◌then◌else◌,
}
use zygveil.RebootIntent.Disk.{ends_with}
use zygveil.Json.{Json, bool, int, minus, is_str, as_str}
use zygveil.Json.Same.{Reals, is_same}

-- A record of a run, and a run.
abbrev pub Item : Type 0
Item = Dict Json

abbrev pub Run : Type 0
Run = List Item

-- `value is b`
abbrev pub is_bool : Option Json → Bool → Bool
is_bool (some (bool true)) b = b
is_bool (some (bool false)) b = not b
is_bool _ b = false

-- An `int` that is no `bool` and not below zero.
abbrev pub as_natural : Option Json → Option ℕ
as_natural (some (int n)) = some n
as_natural (some (minus n)) = if eqb n 0 then some 0 else none
as_natural _ = none

abbrev pub is_detector : Item → Bool
is_detector r = is_str (lookup "record_type" r) "detector"

abbrev pub enter_id : Option String → Item → Dict Item → Result (Dict Item)
enter_id none r d = err "KeyError"
enter_id (some id) r d = ok (insert id r d)

unfoldable pub collect_detectors : Dict Item → Run → Result (Dict Item)
unfolding lookup
collect_detectors d [] = ok d
collect_detectors d (r ∷ rs) =
    (if is_detector r then enter_id (as_str (lookup "test_id" r)) r d else ok d) >>= λ more.
    collect_detectors more rs

abbrev pub nonempty_detectors : Dict Item → Result (Dict Item)
nonempty_detectors [] = err "server-VPN run has no detector records"
nonempty_detectors (x ∷ d) = ok (x ∷ d)

unfoldable pub detector_records : Run → Result (Dict Item)
unfolding collect_detectors
detector_records records = collect_detectors [] records >>= nonempty_detectors

-- `next((record for record in records if …), None)`
abbrev pub summary_of : Run → Option Item
summary_of [] = none
summary_of (r ∷ rs) = if is_str (lookup "record_type" r) "summary" then some r else summary_of rs

-- `records[0]`
abbrev pub first_of : Run → Result Item
first_of [] = err "IndexError"
first_of (r ∷ rs) = ok r

-- Floating-point seconds, as far as the code computes with them. `timestamp` is
-- `datetime.fromisoformat(s).timestamp()`, none where that raises ValueError.
pub record Seconds : Type 1 where
  pub Time : Type 0
  pub timestamp : String → Option Time
  pub of_int : ℕ → Time
  pub plus : Time → Time → Time
  pub minus : Time → Time → Time
  pub times : Time → Time → Time
  -- the division of integers
  pub over : ℕ → ℕ → Time
  pub less : Time → Time → Bool
  pub truncate : Time → ℕ

unfoldable pub run_mismatch : String → String → String → Bool → Item → Bool
unfolding lookup
run_mismatch group process variant module_expected r =
    not (is_str (lookup "group" r) group)
    || not (is_str (lookup "variant" r) variant)
    || not (is_str (lookup "process" r) process)
    || not (is_bool (lookup "vpn_expected" r) true)
    || not (is_bool (lookup "module_expected" r) module_expected)

abbrev pub valid_group : Option String → Result String
valid_group none = err "server-VPN differential group is invalid"
valid_group (some g) =
    if starts_with "server-vpn-" g then ok g else err "server-VPN differential group is invalid"

abbrev pub valid_process : Option String → Result String
valid_process none = err "server-VPN differential process is invalid"
valid_process (some p) = if p == "" then err "server-VPN differential process is invalid" else ok p

module _ (reals : Reals) where
  unfoldable pub role_mismatch : Item → String → Bool → Bool
  unfolding lookup
  role_mismatch r variant module_expected =
      not (is_same reals (lookup "schema_version" r) (int 2))
      || not (is_str (lookup "variant" r) variant)
      || not (is_bool (lookup "vpn_expected" r) true)
      || not (is_bool (lookup "module_expected" r) module_expected)

  -- The group, and the role of the process.
  unfoldable pub require_identity : Run → String → Bool → Result (String × String)
  unfolding lookup starts_with ends_with
  require_identity records variant module_expected = do
    first ← first_of records
    reject (role_mismatch first variant module_expected)
        "server-VPN differential role metadata mismatch"
    group ← valid_group (as_str (lookup "group" first))
    process ← valid_process (as_str (lookup "process" first))
    reject (any (run_mismatch group process variant module_expected) records)
        "server-VPN differential run identity is inconsistent"
    ok (group, if ends_with ":secondary" process then "secondary" else "main")

module _ (seconds : Seconds) where
  open seconds use {Time, timestamp, of_int, plus, minus, times, over, less, truncate}

  abbrev pub interval_of : Option String → Option ℕ → Result (Time × Time)
  interval_of (some started_at) (some elapsed_ms) =
      elim (timestamp (replace_text "Z" "+00:00" started_at)) [
        | none ↦ err "server-VPN start timestamp is invalid"
        | some started ↦ ok (started, plus started (over elapsed_ms 1000))
      ]
  interval_of _ _ = err "server-VPN run interval is invalid"

  abbrev pub summarised : Run → Option Item → Result (Time × Time)
  summarised records none = err "server-VPN run has no summary"
  summarised records (some summary) = do
    first ← first_of records
    interval_of (as_str (lookup "started_at" first)) (as_natural (lookup "elapsed_ms" summary))

  unfoldable pub run_interval : Run → Result (Time × Time)
  unfolding lookup replace_text
  run_interval records = summarised records (summary_of records)

  -- Python's `min` and `max` of two.
  abbrev pub least : Time → Time → Time
  least a b = if less b a then b else a

  abbrev pub greatest : Time → Time → Time
  greatest a b = if less a b then b else a

  -- `int(max(0.0, min(target_end, canary_end) - max(target_start, canary_start)) * 1000)`
  unfoldable pub overlap_ms : Time × Time → Time × Time → ℕ
  overlap_ms (target_start, target_end) (canary_start, canary_end) = truncate (
      times
        (greatest (of_int 0)
          (minus (least target_end canary_end) (greatest target_start canary_start)))
        (of_int 1000))
