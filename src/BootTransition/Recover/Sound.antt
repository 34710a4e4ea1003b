-- ===== src/BootTransition/Recover/Sound.antt =====
-- What `recover` of tools/automation/location_device.py has reached if it returns.
use zygveil.Base.{
  String, ◌≡◌, ◌≢◌, refl, sym, ap, ◌∙◌, Bool, false, not, ◌||◌, ◌==◌, none, Dict, lookup, Result,
  ok, err, >>=-eq-ok, >>-eq-ok, reject->>-eq-ok, reject-eq-ok, eq_iff, if◌then◌else◌, arith,
}
use zygveil.Json.{Json}
use zygveil.RebootIntent.Disk.{Disk}
use zygveil.RebootIntent.Store.{Fresh, Observer, load_intent, field_is, clear_intent}
use zygveil.RebootIntent.Store.Pending.{lookup-clear_intent}
use zygveil.RebootIntent.Store.Source.{
  IsFrom, begin_or_resume_sound, handed_over-IsFrom, not_recorded,
}
use zygveil.BootConfig.State.{ModuleState, state_text}
use zygveil.BootTransition.{
  current_boot_id_sha256, system_server_identity, wait_for_boot, verify_system_server_stability,
}
use zygveil.BootTransition.Reboot.{Outcome, reboot_path, is_some, is_other_boot}
use zygveil.BootTransition.Recover.{
  RecoveryAnswers, recovery_path, recovery_request, recovery_identity, select_recovery_adbd,
  disable_module, forgotten, prepare_recovery, send_recovery, validate_recovery, recovered_by,
  recover,
}

-- What a recovery has been validated by.
pub record IsRecovered (sha256 : String → String) (observe : Observer) (a : RecoveryAnswers)
    (d : Disk) (o : Outcome) : Type 0 where
  pub source : Dict Json
  pub boot : String
  pub from :
      IsFrom observe recovery_request recovery_path d
        (current_boot_id_sha256 sha256 a.boot_id)
        source
        o.rebooted
        boot
  pub state : ModuleState
  pub digest : String
  pub stable : verify_system_server_stability a.samples ≡ ok tt
  pub found : a.recovered ≡ ok (state, false)
  pub disabled : state_text state ≡ "disabled"
  pub booted : current_boot_id_sha256 sha256 a.final_boot_id ≡ ok digest
  pub new_boot : digest ≢ boot
  pub gone : (lookup recovery_path o.disk.files ≡ none) × (lookup reboot_path o.disk.files ≡ none)

both_gone :
    (d : Disk)
    → (lookup recovery_path (clear_intent reboot_path (clear_intent recovery_path d)).files ≡ none)
      × (lookup reboot_path (clear_intent reboot_path (clear_intent recovery_path d)).files ≡ none)
both_gone d = (
  lookup-clear_intent reboot_path recovery_path (clear_intent recovery_path d)
      ∙ lookup-clear_intent recovery_path recovery_path d,
  lookup-clear_intent reboot_path reboot_path (clear_intent recovery_path d) ∙ refl,
)

recovery_identity_boot :
    (digest : String) (r : Result (String × String × Bool))
    → (recovery_identity digest r).boot_id_sha256 ≡ digest
unfolding recovery_identity
recovery_identity_boot digest (ok (pid, start_ticks, _)) = refl
recovery_identity_boot digest (err e) = refl

module _ (sha256 : String → String) (observe : Observer) (a : RecoveryAnswers) (d : Disk) where
  prepare_recovery-IsFrom :
      (t : Fresh) (v : Dict Json) (resumed : Bool) (d' : Disk)
      → prepare_recovery sha256 observe t a d ≡ ok (v, resumed, d')
      → (boot : String) × IsFrom observe recovery_request recovery_path d
          (current_boot_id_sha256 sha256 a.boot_id)
          v
          (not resumed)
          boot
  unfolding prepare_recovery
  prepare_recovery-IsFrom t v resumed d' h =
      let (pending, _, r₁) = >>=-eq-ok (load_intent observe recovery_request recovery_path d) _ h in
      let (_, r₂) = >>-eq-ok (select_recovery_adbd a.adbd) _ r₁ in
      let (_, r₃) =
        >>-eq-ok (if is_some pending then wait_for_boot a.resumed_boot else ok tt) _ r₂ in
      let (digest, e, r₄) = >>=-eq-ok (current_boot_id_sha256 sha256 a.boot_id) _ r₃ in
      let (_, r₅) =
        >>-eq-ok (if is_other_boot pending digest then ok tt else disable_module a.live a.staged) _
          r₄ in
      let i = recovery_identity digest (system_server_identity a.shell) in
      let o = begin_or_resume_sound observe t recovery_request i recovery_path d d' v resumed r₅ in
      (
        o.boot,
        handed_over-IsFrom observe recovery_request i recovery_path d d'
            (current_boot_id_sha256 sha256 a.boot_id) v resumed
            (e ∙ ap ok (sym (recovery_identity_boot digest (system_server_identity a.shell)))) o,
      )

  forgotten-IsRecovered :
      (d' : Disk) (v : Dict Json) (resumed : Bool) (r : Result (Unit {0})) (boot : String)
      → IsFrom observe recovery_request recovery_path d
          (current_boot_id_sha256 sha256 a.boot_id)
          v
          (not resumed)
          boot
      → validate_recovery sha256 a v resumed ≡ r
      → (forgotten d' resumed r).result ≡ ok tt
      → IsRecovered sha256 observe a d (forgotten d' resumed r)
  unfolding validate_recovery
  forgotten-IsRecovered d' v resumed (err e) boot from same h = absurd (ground arith)
  forgotten-IsRecovered d' v resumed (ok _) boot from same h =
      let (_, r₁) = >>-eq-ok (send_recovery sha256 a v resumed) _ same in
      let (stable, r₂) = >>-eq-ok (verify_system_server_stability a.samples) _ r₁ in
      let (found, e, r₃) = >>=-eq-ok a.recovered _ r₂ in
      let (bad, r₄) = reject->>-eq-ok (not (state_text found.0 == "disabled") || found.1) _ _ r₃ in
      let (digest, f, r₅) = >>=-eq-ok (current_boot_id_sha256 sha256 a.final_boot_id) _ r₄ in
      let other = reject-eq-ok (field_is "source_boot_id_sha256" v digest) _ r₅ in
      let unattested : found.1 ≡ false = ground arith in
      record {
        source = v;
        boot = boot;
        from = from;
        state = found.0;
        digest = digest;
        stable = stable;
        found = e ∙ ap (λ b. ok (found.0, b)) unattested;
        disabled = ground (arith, eq_iff (state_text found.0) "disabled");
        booted = f;
        new_boot = not_recorded v boot digest from.recorded other;
        gone = both_gone d';
      }

  recovered_by-IsRecovered :
      (t : Fresh) (p : Result (Dict Json × Bool × Disk))
      → prepare_recovery sha256 observe t a d ≡ p
      → (recovered_by sha256 a d p).result ≡ ok tt
      → IsRecovered sha256 observe a d (recovered_by sha256 a d p)
  recovered_by-IsRecovered t (err e) same h = absurd (ground arith)
  recovered_by-IsRecovered t (ok (v, resumed, d')) same h =
      let (boot, from) = prepare_recovery-IsFrom t v resumed d' same in
      forgotten-IsRecovered d' v resumed (validate_recovery sha256 a v resumed) boot from refl h

-- If `recover` returns, system_server was stable, the module is disabled and not attested, and neither
-- the intent of the recovery nor one of `reboot_device` is there. The device is then on another boot
-- than the one that the intent of the recovery records, and that intent is the one that was pending,
-- or, if none was, records the boot that the device was on; and if the device was rebooted, the boot
-- it was on is the recorded one.
pub recover_sound :
    (sha256 : String → String) (observe : Observer) (t : Fresh) (a : RecoveryAnswers) (d : Disk)
    → (recover sha256 observe t a d).result ≡ ok tt
    → IsRecovered sha256 observe a d (recover sha256 observe t a d)
unfolding recover
recover_sound sha256 observe t a d h =
    recovered_by-IsRecovered sha256 observe a d t (prepare_recovery sha256 observe t a d) refl h
