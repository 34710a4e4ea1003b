-- ===== src/Tests/Adb.antt =====
-- The theorems about devices at concrete answers of a device.
use zygveil.Base.{
  String, ◌≡◌, ◌↔◌, refl, true, false, not, ◌==◌, some, [], ◌∷◌, Dict, NodupKeys, insert, all_chars,
  eqb, isdigit, join, strip, words, splitlines, without_char, ok, if◌then◌else◌,
}
use zygveil.Adb.Devices.{parse_adb_devices, choose_adb_selector}
use zygveil.Adb.Devices.Choice.{Lists, IsChosen, choose_adb_selector_sound}
use zygveil.Adb.Ui.{UiState, Screen, is_ready, ensure_device_ui_ready}
use zygveil.Adb.Ui.Ready.{SaysReady, ensure_device_ui_ready_lem}
use zygveil.Adb.Process.{Shell, field_at, read_start_ticks, system_server_process_identity}
use zygveil.Adb.Process.Identity.{
  HasIdentity, system_server_process_identity_iff, read_start_ticks-stat,
}

abbrev listing : String
listing = "List of devices attached\r\nabc123\tdevice\ndef456\toffline\n"

abbrev listed : Dict String
listed = ("abc123", "device") ∷ ("def456", "offline") ∷ []

listing_parsed : parse_adb_devices listing ≡ ok listed
unfolding parse_adb_devices splitlines without_char strip insert
listing_parsed = refl

chosen : choose_adb_selector listed "abc123" ≡ ok ("abc123", "explicit")
unfolding choose_adb_selector
chosen = refl

choose_adb_selector_sound_example :
    Lists (splitlines (without_char b'\r' listing)) listed
    × NodupKeys listed
    × IsChosen listed "abc123" "abc123"
choose_adb_selector_sound_example =
    choose_adb_selector_sound listing "abc123" listed "abc123" "explicit" listing_parsed chosen

abbrev dozing : UiState
dozing = record { wakefulness = "Dozing"; window_awake = false; keyguard_showing = true }

abbrev locked : UiState
locked = record { wakefulness = "Awake"; window_awake = true; keyguard_showing = true }

abbrev open_screen : UiState
open_screen = record { wakefulness = "Awake"; window_awake = true; keyguard_showing = false }

abbrev screen : Screen
screen = record {
  initial = ok dozing;
  wake_exit = 0;
  after_wake = record { first = ok dozing; rounds = ok locked ∷ [] };
  dismiss_exit = 0;
  after_dismiss = record { first = ok locked; rounds = ok open_screen ∷ [] };
}

ensure_device_ui_ready_lem_example :
    ((ensure_device_ui_ready screen).1 ≡ ok open_screen
      → (is_ready open_screen ≡ true) × SaysReady (ensure_device_ui_ready screen).0)
    × (screen.initial ≡ ok open_screen
        → is_ready open_screen ≡ true
        → (ensure_device_ui_ready screen).1 ≡ ok open_screen)
ensure_device_ui_ready_lem_example = ensure_device_ui_ready_lem screen open_screen

abbrev fields_text : String
fields_text = "S 1 2 3 4 5 6 7 8 9 10 11 12 13 14 15 16 17 18 4567 20"

abbrev stat_line : String
stat_line = "812 (system) server) S 1 2 3 4 5 6 7 8 9 10 11 12 13 14 15 16 17 18 4567 20\n"

-- `pidof` has one argument more than its name, and so has `cat`.
abbrev device : Shell
device n (command ∷ more) =
    if command == "pidof"
    then record { returncode = 0; stdout = "812\n" }
    else record { returncode = 0; stdout = stat_line }
device n [] = record { returncode = 1; stdout = "" }

system_server_process_identity_iff_example :
    system_server_process_identity device ≡ ok ("812", "4567") ↔ HasIdentity device "812" "4567"
system_server_process_identity_iff_example = system_server_process_identity_iff device "812" "4567"

stat_stripped : strip stat_line ≡ join "812 (system) server" (join ") " fields_text)
unfolding strip join
stat_stripped = refl

plain_fields : all_chars (λ c. not (eqb c b')')) fields_text ≡ true
unfolding all_chars
plain_fields = refl

ticks_field : field_at 19 (words fields_text) ≡ some "4567"
unfolding words
ticks_field = refl

ticks_digits : isdigit "4567" ≡ true
unfolding isdigit
ticks_digits = refl

read_start_ticks-stat_example : read_start_ticks device 1 "812" ≡ ok "4567"
read_start_ticks-stat_example =
    read_start_ticks-stat device 1 "812" "812 (system) server" fields_text "4567" refl stat_stripped
      plain_fields ticks_field ticks_digits
