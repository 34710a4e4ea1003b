-- ===== src/Adb/Devices.antt =====
-- `parse_adb_devices` and `choose_adb_selector` of tools/automation/adb.py.
pub mod Choice
use zygveil.Base.{
  String, Bool, not, ◌||◌, ◌==◌, Option, none, some, List, [], ◌∷◌, Dict, lookup, insert, has_key,
  is_text, strip, splitlines, words, starts_with, without_char, Result, ok, err, ◌>>=◌, ◌>>◌,
  reject, if◌then◌else◌,
}

-- The fields of a line: a serial number, a state, and what `adb` says more of the device.
unfoldable pub add_device : Dict String → List String → Result (Dict String)
add_device devices (serial ∷ state ∷ more) =
    if has_key devices serial
    then err "ADB transport inventory is malformed"
    else ok (insert serial state devices)
add_device devices _ = err "ADB transport inventory is malformed"

unfoldable pub is_banner : String → Bool
unfolding starts_with
is_banner line = line == "" || starts_with "List of devices attached" line || starts_with "*" line

unfoldable pub device_line : Dict String → String → Result (Dict String)
unfolding add_device is_banner words
device_line devices raw_line =
    let line = strip raw_line in
    if is_banner line then ok devices else add_device devices (words line)

unfoldable pub device_lines : Dict String → List String → Result (Dict String)
unfolding device_line
device_lines devices [] = ok devices
device_lines devices (line ∷ lines) = device_line devices line >>= λ more. device_lines more lines

unfoldable pub parse_adb_devices : String → Result (Dict String)
unfolding device_lines
parse_adb_devices output = device_lines [] (splitlines (without_char b'\r' output))

abbrev pub choose_only : Dict String → Result (String × String)
choose_only [] = err "no ADB transport is present"
choose_only ((serial, state) ∷ []) =
    if state == "device"
    then ok (serial, "implicit_single")
    else err "the only ADB transport is offline or unauthorized"
choose_only (a ∷ b ∷ more) = err "multiple ADB transports are present; pass ADB_SERIAL explicitly"

unfoldable pub choose_adb_selector : Dict String → String → Result (String × String)
unfolding lookup
choose_adb_selector devices requested =
    if requested == ""
    then choose_only devices
    else if is_text (lookup requested devices) "device"
    then ok (requested, "explicit")
    else err "the requested ADB transport is absent, offline, or unauthorized"
