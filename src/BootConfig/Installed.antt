-- ===== src/BootConfig/Installed.antt =====
-- `set_location` of tools/automation/location_device.py: a new configuration for a disabled module.
pub mod Config
use zygveil.Base.{
  ℕ, String, Bool, true, false, not, ◌&&◌, ◌||◌, ◌==◌, Option, none, some, List, [], ◌∷◌, Dict,
  lookup, is_text, length, eqb, all, Result, ok, err, ◌>>=◌, ◌>>◌, reject, if◌then◌else◌,
}
use zygveil.SafeRead.{Target}
use zygveil.BootConfig.{read_properties}
use zygveil.BootConfig.Config.{
  Floats, validate_config, resolve_boot_config, render_config, read_private_config,
}
use zygveil.BootConfig.State.{ModuleState, state_text}

-- `a == b` for dictionaries of texts
abbrev pub is_entry : Dict String → String × String → Bool
is_entry d (k, v) = is_text (lookup k d) v

unfoldable pub same_dict : Dict String → Dict String → Bool
unfolding lookup
same_dict a b = eqb (length a) (length b) && all (is_entry b) a

-- What `inspect_module` returns, as far as it is used here.
pub record Inspected : Type 0 where
  pub state : ModuleState
  pub runtime_attested : Bool
  pub live_installed : Bool
  pub staged_installed : Bool
  pub config : Dict String

-- What the device answers: `select_root_adbd`, `inspect_module`, `write_module_text` of a text, and
-- what the configuration file holds, after a text has been written or without.
pub record SetAnswers : Type 0 where
  pub selected : Result (Unit {0})
  pub current : Result Inspected
  pub write : String → Result (Unit {0})
  pub read_back : Option String → Result String

unfoldable pub check_settable : Inspected → Result (Unit {0})
check_settable m =
    reject
      (not (state_text m.state == "disabled")
        || m.runtime_attested
        || not m.live_installed
        || m.staged_installed)
      "location-set requires the module disabled and absent from system_server"

-- The text that is written, if one is.
abbrev pub written : Bool → String → Option String
written changed content = if changed then some content else none

module _ (floats : Floats) where
  unfoldable pub check_installed : Dict String → Result String → Result (Unit {0})
  check_installed values file = do
    text ← file
    installed ← read_properties true text
    validate_config floats installed
    reject (not (same_dict installed values))
        "installed location config differs from the requested config"

  -- The configuration that is installed then, and whether it was written.
  unfoldable pub set_location : ℕ → Target → SetAnswers → Result (Dict String × Bool)
  set_location getuid t a = do
    requested ← read_private_config floats getuid t
    a.selected
    current ← a.current
    check_settable current
    (values, changed) ← resolve_boot_config floats requested current.config
    content ← render_config floats values
    if changed then a.write content else ok tt
    check_installed values (a.read_back (written changed content))
    ok (values, changed)
