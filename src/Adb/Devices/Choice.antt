-- ===== src/Adb/Devices/Choice.antt =====
-- Which device tools/automation/adb.py chooses.
use zygveil.Base.{
  String, ◌≡◌, ◌≢◌, refl, sym, ap, subst, ◌∙◌, ◌⊎◌, inl, inr, true, false, ◌==◌, Option, none, some,
  List, [], ◌∷◌, ◌++◌, Dict, lookup, has_key, insert, insert-new, append_assoc, append_nil,
  NodupKeys, insert-NodupKeys, is_text, splitlines, without_char, ok, >>=-eq-ok, ok-injective,
  eq_iff, eq_refl, Bool-cases, strip, words, starts_with, arith,
}
use zygveil.Adb.Devices.{
  add_device, is_banner, device_line, device_lines, parse_adb_devices, choose_only,
  choose_adb_selector,
}

-- A line that names no device: an empty one, the headline, or a message of the daemon.
abbrev pub IsNoise : String → Type 0
IsNoise line =
    (strip line ≡ "")
    ⊎ (starts_with "List of devices attached" (strip line) ≡ true)
    ⊎ (starts_with "*" (strip line) ≡ true)

-- The devices of the lines, in their order: one for each line that is no noise, with its first two
-- words.
pub data Lists : List String → Dict String → Type 0 where
  done : Lists [] []
  noise :
      {line : String} {lines : List String} {d : Dict String}
      → IsNoise line
      → Lists lines d
      → Lists (line ∷ lines) d
  device :
      {line : String} {lines : List String} {d : Dict String} (serial state : String)
      (more : List String)
      → ¬ IsNoise line
      → words (strip line) ≡ serial ∷ state ∷ more
      → Lists lines d
      → Lists (line ∷ lines) ((serial, state) ∷ d)

is_banner-IsNoise : (line : String) → is_banner (strip line) ≡ true → IsNoise line
unfolding is_banner
is_banner-IsNoise line h = ground (arith, eq_iff (strip line) "")

not-IsNoise : (line : String) → is_banner (strip line) ≡ false → ¬ IsNoise line
unfolding is_banner
not-IsNoise line h (inl empty) = ground (arith, eq_iff (strip line) "")
not-IsNoise line h (inr (inl head)) = ground arith
not-IsNoise line h (inr (inr message)) = ground arith

-- A device that is entered.
record IsAdded (d e : Dict String) (ws : List String) : Type 0 where
  serial : String
  state : String
  more : List String
  parts : ws ≡ serial ∷ state ∷ more
  last : e ≡ d ++ ((serial, state) ∷ [])
  nodup : NodupKeys e

add_device-IsAdded :
    (d e : Dict String) (ws : List String) → NodupKeys d → add_device d ws ≡ ok e → IsAdded d e ws
unfolding add_device
add_device-IsAdded d e [] nodup h = absurd (ground arith)
add_device-IsAdded d e (a ∷ []) nodup h = absurd (ground arith)
add_device-IsAdded d e (a ∷ b ∷ more) nodup h = elim (Bool-cases (has_key d a)) [
  | inl there ↦ absurd (ground arith)
  | inr new ↦
      let same : insert a b d ≡ e = ok-injective (rw new at h) in
      record {
        serial = a;
        state = b;
        more = more;
        parts = refl;
        last = sym same ∙ insert-new a b d new;
        nodup = subst NodupKeys same (insert-NodupKeys a b d nodup);
      }
]

-- What the lines from here on add.
record Reads (d : Dict String) (lines : List String) (e : Dict String) : Type 0 where
  added : Dict String
  listed : Lists lines added
  whole : e ≡ d ++ added
  nodup : NodupKeys e

device_lines-Reads :
    (d e : Dict String) (lines : List String)
    → NodupKeys d
    → device_lines d lines ≡ ok e
    → Reads d lines e
unfolding device_lines device_line
device_lines-Reads d e [] nodup h =
    let same : d ≡ e = ok-injective h in
    record {
      added = [];
      listed = done;
      whole = sym same ∙ sym (append_nil d);
      nodup = subst NodupKeys same nodup;
    }
device_lines-Reads d e (line ∷ lines) nodup h =
    let (next, first, rest) = >>=-eq-ok (device_line d line) _ h in
    elim (Bool-cases (is_banner (strip line))) [
      | inl banner ↦
          let same : d ≡ next = ok-injective (rw banner at first) in
          let r = device_lines-Reads next e lines (subst NodupKeys same nodup) rest in
          record {
            added = r.added;
            listed = noise (is_banner-IsNoise line banner) r.listed;
            whole = rw same r.whole;
            nodup = r.nodup;
          }
      | inr other ↦
          let a = add_device-IsAdded d next (words (strip line)) nodup (rw other at first) in
          let r = device_lines-Reads next e lines a.nodup rest in
          record {
            added = (a.serial, a.state) ∷ r.added;
            listed = device a.serial a.state a.more (not-IsNoise line other) a.parts r.listed;
            whole =
                r.whole
                ∙ ap (λ x. x ++ r.added) a.last
                ∙ append_assoc d ((a.serial, a.state) ∷ []) r.added;
            nodup = r.nodup;
          }
    ]

-- The chosen device is a listed one in the state `device`; it is the requested one if one was
-- requested, and otherwise the only one in the list.
pub record IsChosen (devices : Dict String) (requested serial : String) : Type 0 where
  pub online : lookup serial devices ≡ some "device"
  pub asked : requested ≢ "" → serial ≡ requested
  pub only : requested ≡ "" → devices ≡ (serial, "device") ∷ []

is_text_sound : (o : Option String) (s : String) → is_text o s ≡ true → o ≡ some s
is_text_sound none s h = absurd (ground arith)
is_text_sound (some t) s h = ap some ((eq_iff t s).0 h)

choose_only_sound :
    (devices : Dict String) (serial mode : String)
    → choose_only devices ≡ ok (serial, mode)
    → devices ≡ (serial, "device") ∷ []
choose_only_sound [] serial mode h = absurd (ground arith)
choose_only_sound ((a, state) ∷ []) serial mode h = ground (arith, eq_iff state "device")
choose_only_sound (a ∷ b ∷ more) serial mode h = absurd (ground arith)

choose_explicit_sound :
    (devices : Dict String) (requested serial mode : String)
    → (requested == "") ≡ false
    → choose_adb_selector devices requested ≡ ok (serial, mode)
    → (requested ≡ serial) × (lookup requested devices ≡ some "device")
unfolding choose_adb_selector
choose_explicit_sound devices requested serial mode asked h =
    elim (Bool-cases (is_text (lookup requested devices) "device")) [
      | inl online ↦ (ground arith, is_text_sound (lookup requested devices) "device" online)
      | inr offline ↦ absurd (ground arith)
    ]

choose_implicit_sound :
    (devices : Dict String) (requested serial mode : String)
    → (requested == "") ≡ true
    → choose_adb_selector devices requested ≡ ok (serial, mode)
    → devices ≡ (serial, "device") ∷ []
unfolding choose_adb_selector
choose_implicit_sound devices requested serial mode unasked h =
    choose_only_sound devices serial mode (rw unasked at h)

choose_adb_selector-IsChosen :
    (devices : Dict String) (requested serial mode : String)
    → choose_adb_selector devices requested ≡ ok (serial, mode)
    → IsChosen devices requested serial
unfolding lookup
choose_adb_selector-IsChosen devices requested serial mode h = elim (Bool-cases (requested == "")) [
  | inl unasked ↦
      let single = choose_implicit_sound devices requested serial mode unasked h in
      record {
        online = rw single (rw (eq_refl serial) refl);
        asked = λ other. absurd (other ((eq_iff requested "").0 unasked));
        only = λ e. single;
      }
  | inr named ↦
      let (same, online) = choose_explicit_sound devices requested serial mode named h in
      record {
        online = subst (λ s. lookup s devices ≡ some "device") same online;
        asked = λ e. sym same;
        only = λ e. absurd (ground (arith, eq_iff requested ""));
      }
]

-- From the output of `adb devices` to the choice: the devices are the first two words of each line,
-- without carriage returns, that is not empty, the headline or a message of the daemon, in the order
-- of the lines, and no serial number stands in two of them. The chosen one is in the state `device`,
-- is the requested one if one was requested, and is the only one that is listed if none was.
pub choose_adb_selector_sound :
    (output requested : String) (devices : Dict String) (serial mode : String)
    → parse_adb_devices output ≡ ok devices
    → choose_adb_selector devices requested ≡ ok (serial, mode)
    → Lists (splitlines (without_char b'\r' output)) devices
      × NodupKeys devices
      × IsChosen devices requested serial
unfolding parse_adb_devices
choose_adb_selector_sound output requested devices serial mode parsed h =
    let r = device_lines-Reads [] devices (splitlines (without_char b'\r' output)) tt parsed in
    (
      subst (Lists (splitlines (without_char b'\r' output))) (sym r.whole) r.listed,
      r.nodup,
      choose_adb_selector-IsChosen devices requested serial mode h,
    )
