-- ===== src/BootConfig/Installed/Config.antt =====
-- What `set_location` of tools/automation/location_device.py has installed if it returns.
use zygveil.Base.{
  ℕ, String, ◌≡◌, ap, subst, ◌∙◌, Bool, true, false, not, ◌||◌, ◌==◌, Option, none, some, [], ◌∷◌,
  Dict, lookup, is_text, length, all, Result, ok, >>=-eq-ok, >>-eq-ok, reject->>-eq-ok,
  reject-eq-ok, ok-injective, not-eq-false, eqb→eq, &&-left, &&-right, Bool-cases, inl, inr, eq_iff,
  if◌then◌else◌, arith,
}
use zygveil.SafeRead.{Target}
use zygveil.BootConfig.{read_properties}
use zygveil.BootConfig.Config.{
  Floats, validate_config, resolve_boot_config, render_config, read_private_config,
}
use zygveil.BootConfig.Config.Resolve.{IsResolved, resolve_boot_config_sound}
use zygveil.BootConfig.State.{state_text}
use zygveil.BootConfig.Installed.{
  is_entry, same_dict, Inspected, SetAnswers, check_settable, written, check_installed,
  set_location,
}

is_text-eq : (o : Option String) (v : String) → is_text o v ≡ true → o ≡ some v
is_text-eq none v h = absurd (ground arith)
is_text-eq (some w) v h = ap some ((eq_iff w v).0 h)

same_entries :
    (a b : Dict String) (k v : String)
    → all (is_entry b) a ≡ true
    → lookup k a ≡ some v
    → lookup k b ≡ some v
unfolding lookup
same_entries [] b k v h found = cc
same_entries ((j, w) ∷ a) b k v h found = elim (Bool-cases (j == k)) [
  | inl here ↦
      let entry : lookup j b ≡ some w = is_text-eq (lookup j b) w (&&-left _ _ h) in
      subst (λ x. lookup x b ≡ some v) ((eq_iff j k).0 here) (entry ∙ rw here at found)
  | inr later ↦ same_entries a b k v (&&-right (is_text (lookup j b) w) _ h) (rw later at found)
]

-- The configuration file of the device.
pub record IsInstalled (floats : Floats) (values : Dict String) (file : Result String)
    : Type 0 where
  pub text : String
  pub installed : Dict String
  pub read : file ≡ ok text
  pub parsed : read_properties true text ≡ ok installed
  pub valid : validate_config floats installed ≡ ok tt
  pub sized : length installed ≡ length values
  pub entries : (k v : String) → lookup k installed ≡ some v → lookup k values ≡ some v

check_installed-IsInstalled :
    (floats : Floats) (values : Dict String) (file : Result String)
    → check_installed floats values file ≡ ok tt
    → IsInstalled floats values file
unfolding check_installed same_dict
check_installed-IsInstalled floats values file h =
    let (text, e, r₁) = >>=-eq-ok file _ h in
    let (installed, parsed, r₂) = >>=-eq-ok (read_properties true text) _ r₁ in
    let (valid, r₃) = >>-eq-ok (validate_config floats installed) _ r₂ in
    let same = not-eq-false _ (reject-eq-ok (not (same_dict installed values)) _ r₃) in
    record {
      text = text;
      installed = installed;
      read = e;
      parsed = parsed;
      valid = valid;
      sized = eqb→eq (length installed) (length values) (&&-left _ _ same);
      entries = λ k v found. same_entries installed values k v (&&-right _ _ same) found;
    }

-- What stands behind a call that has returned.
pub record IsLocationSet (floats : Floats) (getuid : ℕ) (t : Target) (a : SetAnswers)
    (values : Dict String) (changed : Bool) : Type 0 where
  pub requested : Dict String
  pub current : Inspected
  pub content : String
  pub asked : read_private_config floats getuid t ≡ ok requested
  pub inspected : a.current ≡ ok current
  pub disabled : state_text current.state ≡ "disabled"
  pub idle : current.runtime_attested ≡ false
  pub resolved : IsResolved floats requested current.config values changed
  pub rendered : render_config floats values ≡ ok content
  pub installed : IsInstalled floats values (a.read_back (written changed content))

-- If `set_location` returns, the module was disabled and not attested; the configuration is the
-- requested one, resolved against the present one; and what the device's file holds behind the write,
-- if there was one, is a valid configuration with its entries.
pub set_location_sound :
    (floats : Floats) (getuid : ℕ) (t : Target) (a : SetAnswers) (values : Dict String)
    (changed : Bool)
    → set_location floats getuid t a ≡ ok (values, changed)
    → IsLocationSet floats getuid t a values changed
unfolding set_location check_settable
set_location_sound floats getuid t a values changed h =
    let (requested, asked, r₁) = >>=-eq-ok (read_private_config floats getuid t) _ h in
    let (_, r₂) = >>-eq-ok a.selected _ r₁ in
    let (current, inspected, r₃) = >>=-eq-ok a.current _ r₂ in
    let (bad, r₄) =
      reject->>-eq-ok
        (not (state_text current.state == "disabled")
          || current.runtime_attested
          || not current.live_installed
          || current.staged_installed)
        _ _ r₃ in
    let (next, resolved, r₅) =
      >>=-eq-ok (resolve_boot_config floats requested current.config) _ r₄ in
    let (content, rendered, r₆) = >>=-eq-ok (render_config floats next.0) _ r₅ in
    let (_, r₇) = >>-eq-ok (if next.1 then a.write content else ok tt) _ r₆ in
    let (installed, r₈) =
      >>-eq-ok (check_installed floats next.0 (a.read_back (written next.1 content))) _ r₇ in
    subst (λ (x : Dict String × Bool). IsLocationSet floats getuid t a x.0 x.1) (ok-injective r₈)
      (record {
        requested = requested;
        current = current;
        content = content;
        asked = asked;
        inspected = inspected;
        disabled = ground (arith, eq_iff (state_text current.state) "disabled");
        idle = ground arith;
        resolved = resolve_boot_config_sound floats requested current.config next.0 next.1 resolved;
        rendered = rendered;
        installed =
            check_installed-IsInstalled floats next.0 (a.read_back (written next.1 content))
              installed;
      })
