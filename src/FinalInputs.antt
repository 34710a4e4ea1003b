-- ===== src/FinalInputs.antt =====
-- `load_private_receipt` of tools/automation/location_final_inputs.py: the receipt that freezes the
-- inputs of a final run.
pub mod Receipt
use zygveil.Base.{
  ℕ, String, Bool, true, false, not, ◌==◌, Dict, all_chars, ltb, Result, ok, err, ◌>>=◌, ◌>>◌,
  reject,
}
use zygveil.SafeRead.{Reading, Rule, read_checked}
use zygveil.Json.{Json, obj, entries}
use zygveil.Json.Load.{loads}
use zygveil.RebootIntent.Store.{canonical}

abbrev pub receipt_rule : Rule
receipt_rule = record {
  limit = 4096;
  identity_error = "formal location input receipt identity is invalid";
  changed_error = "formal location input receipt changed while being read";
}

-- What `os.open` finds.
pub data Opened : Type 0 where
  missing unsafe : Opened
  opened : Reading → Opened

abbrev pub receipt_json : Result Json → Result Json
receipt_json (ok v) = ok v
receipt_json (err e) = err "formal location input receipt is unreadable"

abbrev pub receipt_object : Json → Result (Dict Json)
receipt_object (obj fs) = ok (entries fs)
receipt_object _ = err "formal location input receipt is not an object"

-- Bytes that are not ASCII cannot be the canonical text, and count as unreadable at once.
unfoldable pub parse_receipt : String → Result (Dict Json)
parse_receipt raw = do
  reject (not (all_chars (λ c. ltb c 128) raw)) "formal location input receipt is unreadable"
  decoded ← receipt_json (loads raw)
  values ← receipt_object decoded
  reject (not (raw == canonical values)) "formal location input receipt is not canonical"
  ok values

unfoldable pub load_private_receipt : ℕ → Opened → Result (Dict Json)
load_private_receipt getuid missing = err "formal location input receipt is missing"
load_private_receipt getuid unsafe = err "formal location input receipt could not be opened safely"
load_private_receipt getuid (opened r) = do
  raw ← read_checked getuid receipt_rule r
  parse_receipt raw
