-- ===== src/LiveControl/Properties.antt =====
-- `parse_properties` of tools/automation/location_live_control.py.
pub mod Fields
use zygveil.Base.{
  String, ◌||◌, ◌==◌, Option, none, some, List, [], ◌∷◌, Dict, has_key, insert, strip, split_once,
  splitlines, Result, ok, err, ◌>>=◌, if◌then◌else◌,
}

-- The key and the value of a line that has an `=`, entered unless one is empty or the key is there.
unfoldable pub add_field : Dict String → String × String → Result (Dict String)
add_field values (left, right) =
    let key = strip left in
    let value = strip right in
    if key == "" || value == "" || has_key values key
    then err "live configuration has an invalid or duplicate field"
    else ok (insert key value values)

unfoldable pub add_split : Dict String → Option (String × String) → Result (Dict String)
unfolding add_field
add_split values none = err "live configuration has an invalid line"
add_split values (some parts) = add_field values parts

-- One round of the loop. A blank line is skipped.
unfoldable pub add_line : Dict String → String → Result (Dict String)
unfolding add_split
add_line values line =
    let stripped = strip line in
    if stripped == "" then ok values else add_split values (split_once b'=' stripped)

unfoldable pub add_lines : Dict String → List String → Result (Dict String)
add_lines values [] = ok values
add_lines values (line ∷ lines) = add_line values line >>= λ more. add_lines more lines

unfoldable pub parse_properties : String → Result (Dict String)
unfolding add_lines add_line
parse_properties text = add_lines [] (splitlines text)
