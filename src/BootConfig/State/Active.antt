-- ===== src/BootConfig/State/Active.antt =====
-- What a module is that `inspect_module` of tools/automation/location_device.py finds active or waiting.
use zygveil.Base.{
  String, ◌≡◌, refl, subst, ◌∙◌, Bool, true, false, ◌&&◌, Dict, lookup, is_text, strip, Result, ok,
  err, ◌>>=◌, >>=-eq-ok, ok-injective, eq_iff, arith,
}
use zygveil.LiveControl.Status.{Status}
use zygveil.BootConfig.{read_properties}
use zygveil.BootConfig.Config.{Floats}
use zygveil.BootConfig.Runtime.{Runtime, validate_runtime_status}
use zygveil.BootConfig.Control.{
  Control, inspect_live_control, live_status_matches_runtime, owner_identity, memfd_identity,
  read_helper_status, attested_by,
}
use zygveil.BootConfig.State.{
  Evidence, Findings, ModuleState, runtime_attested, runtime_ready, state_name, findings,
  load_config, inspect_module,
}

-- What leads to these two names.
record IsNamed (e : Evidence) (f : Findings) (waiting : Bool) : Type 0 where
  not_staged : e.staged_installed ≡ false
  not_removed : e.remove_pending ≡ false
  not_disabled : e.disabled ≡ false
  ready : f.ready ≡ true
  control : f.control_attested ≡ true
  enabled : f.waiting ≡ waiting

state_name-active :
    (e : Evidence) (f : Findings) → state_name e f ≡ ModuleState.active → IsNamed e f false
unfolding state_name
state_name-active e f h = record {
  not_staged = ground arith;
  not_removed = ground arith;
  not_disabled = ground arith;
  ready = ground arith;
  control = ground arith;
  enabled = ground arith;
}

state_name-waiting :
    (e : Evidence) (f : Findings) → state_name e f ≡ ModuleState.waiting → IsNamed e f true
unfolding state_name
state_name-waiting e f h = record {
  not_staged = ground arith;
  not_removed = ground arith;
  not_disabled = ground arith;
  ready = ground arith;
  control = ground arith;
  enabled = ground arith;
}

-- An installed module that runs as configured: its configuration is valid; its runtime status is
-- valid, ready, of the running system_server and of the running boot; the module is neither staged nor
-- to be removed nor disabled; and the helper's status was read from attested files and agrees with
-- both.
pub record IsRunning (floats : Floats) (e : Evidence) (waiting : Bool) : Type 0 where
  pub config : Dict String
  pub runtime : Runtime
  pub guard : Dict String
  pub status : Status
  pub configured : load_config floats e.config_text ≡ ok config
  pub published :
      (read_properties false e.runtime_text >>= λ values. validate_runtime_status values)
      ≡ ok runtime
  pub guarded : read_properties false e.guard_text ≡ ok guard
  pub enabled : is_text (lookup "enabled" config) "false" ≡ waiting
  pub installed : e.live_installed ≡ true
  pub not_staged : e.staged_installed ≡ false
  pub not_removed : e.remove_pending ≡ false
  pub not_disabled : e.disabled ≡ false
  pub process : runtime.pid ≡ e.pid
  pub start_ticks : runtime.start_ticks ≡ e.start_ticks
  pub boot : runtime.boot_id ≡ strip e.boot_id
  pub valid_guard : is_text (lookup "state" guard) "valid" ≡ true
  pub hooked : runtime.state ≡ "ready"
  pub mode : is_text (lookup "raw_gnss_mode" config) runtime.raw_gnss_mode ≡ true
  pub helper : read_helper_status e.expected_helpers e.control ≡ ok status
  pub owner : owner_identity runtime e.control ≡ true
  pub memfd : memfd_identity e.control ≡ true
  pub agrees : live_status_matches_runtime config runtime status e.pid (strip e.boot_id) ≡ true

attested_by-ok :
    (config : Dict String) (r : Runtime) (c : Control) (pid boot_id : String) (s : Result Status)
    → attested_by config r c pid boot_id s ≡ true
    → (t : Status) × (s ≡ ok t)
      × (owner_identity r c ≡ true)
      × (memfd_identity c ≡ true)
      × (live_status_matches_runtime config r t pid boot_id ≡ true)
attested_by-ok config r c pid boot_id (err message) h = absurd (ground arith)
attested_by-ok config r c pid boot_id (ok t) h = (t, refl, ground arith, ground arith, ground arith)

-- Nothing is attested but with a valid configuration and a valid runtime status.
findings-ok :
    (e : Evidence) (config : Result (Dict String)) (r : Result Runtime) (guard : Dict String)
    → (findings e config r guard).control_attested ≡ true
    → (c : Dict String) × (s : Runtime) × (config ≡ ok c) × (r ≡ ok s)
unfolding findings
findings-ok e (ok c) (ok s) guard h = (c, s, refl, refl)
findings-ok e (ok c) (err message) guard h = absurd (ground arith)
findings-ok e (err message) r guard h = absurd (ground arith)

runtime_attested-eq :
    (r : Runtime) (e : Evidence)
    → runtime_attested r e ≡ true
    → (r.pid ≡ e.pid) × (r.start_ticks ≡ e.start_ticks) × (r.boot_id ≡ strip e.boot_id)
unfolding runtime_attested
runtime_attested-eq r e h = (
  ground (arith, eq_iff r.pid e.pid),
  ground (arith, eq_iff r.start_ticks e.start_ticks),
  ground (arith, eq_iff r.boot_id (strip e.boot_id)),
)

runtime_ready-eq :
    (r : Runtime) (config guard : Dict String)
    → runtime_ready r config guard ≡ true
    → (is_text (lookup "state" guard) "valid" ≡ true)
      × (r.state ≡ "ready")
      × (is_text (lookup "raw_gnss_mode" config) r.raw_gnss_mode ≡ true)
unfolding runtime_ready
runtime_ready-eq r config guard h =
    (ground arith, ground (arith, eq_iff r.state "ready"), ground arith)

module _ (floats : Floats) (e : Evidence) (waiting : Bool) (config guard : Dict String)
    (r : Runtime) where
  findings-IsRunning :
      load_config floats e.config_text ≡ ok config
      → (read_properties false e.runtime_text >>= λ values. validate_runtime_status values) ≡ ok r
      → read_properties false e.guard_text ≡ ok guard
      → IsNamed e (findings e (ok config) (ok r) guard) waiting
      → IsRunning floats e waiting
  unfolding findings inspect_live_control
  findings-IsRunning configured published guarded n =
      let both : (runtime_attested r e && runtime_ready r config guard) ≡ true = n.ready in
      let (process, start_ticks, boot) = runtime_attested-eq r e (ground arith) in
      let (valid_guard, hooked, mode) = runtime_ready-eq r config guard (ground arith) in
      let control = n.control in
      let (s, helper, owner, memfd, agrees) =
        attested_by-ok config r e.control e.pid (strip e.boot_id)
          (read_helper_status e.expected_helpers e.control) (ground arith) in
      record {
        config = config;
        runtime = r;
        guard = guard;
        status = s;
        configured = configured;
        published = published;
        guarded = guarded;
        enabled = n.enabled;
        installed = ground arith;
        not_staged = n.not_staged;
        not_removed = n.not_removed;
        not_disabled = n.not_disabled;
        process = process;
        start_ticks = start_ticks;
        boot = boot;
        valid_guard = valid_guard;
        hooked = hooked;
        mode = mode;
        helper = helper;
        owner = owner;
        memfd = memfd;
        agrees = agrees;
      }

named-IsRunning :
    (floats : Floats) (e : Evidence) (waiting : Bool) (guard : Dict String)
    → read_properties false e.guard_text ≡ ok guard
    → IsNamed e
        (findings e
          (load_config floats e.config_text)
          (read_properties false e.runtime_text >>= λ values. validate_runtime_status values)
          guard)
        waiting
    → IsRunning floats e waiting
named-IsRunning floats e waiting guard guarded n =
    let config = load_config floats e.config_text in
    let runtime =
      read_properties false e.runtime_text >>= λ values. validate_runtime_status values in
    let (c, r, configured, published) = findings-ok e config runtime guard n.control in
    findings-IsRunning floats e waiting c guard r configured published guarded (
      subst (λ x. IsNamed e (findings e (ok c) x guard) waiting) published
        (subst (λ x. IsNamed e (findings e x runtime guard) waiting) configured n))

-- A module that is found active, or waiting, runs as configured, and its configuration says so: it is
-- waiting exactly if it is found waiting.
pub inspect_module_sound :
    (floats : Floats) (e : Evidence) (state : ModuleState)
    → inspect_module floats e ≡ ok state
    → (state ≡ ModuleState.active → IsRunning floats e false)
      × (state ≡ ModuleState.waiting → IsRunning floats e true)
unfolding inspect_module
inspect_module_sound floats e state h =
    let (guard, guarded, r) = >>=-eq-ok (read_properties false e.guard_text) _ h in
    let named = ok-injective r in
    (
      λ active.
          named-IsRunning floats e false guard guarded (state_name-active e _ (named ∙ active)),
      λ idle. named-IsRunning floats e true guard guarded (state_name-waiting e _ (named ∙ idle)),
    )
