-- ===== src/BootTransition/Reboot/Validated.antt =====
-- When `reboot_device` of tools/automation/location_device.py reboots, and what it has seen if it returns.
use zygveil.Base.{
  String, ◌≡◌, ◌≢◌, refl, ◌∙◌, Bool, true, false, not, ◌&&◌, ◌==◌, Option, none, some, Dict, lookup,
  contains, Result, ok, err, >>=-eq-ok, >>-eq-ok, reject->>-eq-ok, reject-eq-ok, not-eq-false,
  eq_iff, if◌then◌else◌, arith,
}
use zygveil.Json.{Json}
use zygveil.RebootIntent.Document.{Identity}
use zygveil.RebootIntent.Disk.{Disk}
use zygveil.RebootIntent.Store.{Fresh, Observer, load_intent, field_is, is_resumed, begin_or_resume}
use zygveil.RebootIntent.Store.Pending.{lookup-clear_intent}
use zygveil.RebootIntent.Store.Source.{
  IsFrom, begin_or_resume_sound, handed_over-IsFrom, not_recorded,
}
use zygveil.BootConfig.State.{ModuleState, state_text}
use zygveil.BootTransition.{
  select_root_adbd, current_boot_id_sha256, system_server_identity, wait_for_boot,
  verify_system_server_stability,
}
use zygveil.BootTransition.Reboot.{
  Answers, Outcome, reboot_path, request, source_states, is_some, is_other_boot, check_source_state,
  prepare, send_reboot, validate_reboot, cleared, carried_out, reboot_device,
}
use zygveil.BootTransition.Reboot.Once.{old_same, prepare-IsPrepared, carried_out-rebooted}

-- The module was found in a state from which the reboot can lead to the expected one.
abbrev pub IsAllowed : String → Answers → Type 0
IsAllowed expected a =
    (s : ModuleState) × (a.before ≡ ok s)
    × (contains (source_states expected) (state_text s) ≡ true)

check_source_state-IsAllowed :
    (expected : String) (pending : Option (Dict Json)) (digest : String) (a : Answers)
    → check_source_state expected pending digest a.before ≡ ok tt
    → is_other_boot pending digest ≡ false
    → IsAllowed expected a
unfolding check_source_state
check_source_state-IsAllowed expected pending digest a h here =
    let (s, e, r) = >>=-eq-ok a.before _ (rw here at h) in
    (
      s,
      e,
      not-eq-false _ (reject-eq-ok (not (contains (source_states expected) (state_text s))) _ r),
    )

not_other_boot :
    (observe : Observer) (t : Fresh) (expected : String) (i : Identity) (d d' : Disk)
    (v : Dict Json) (pending : Option (Dict Json))
    → load_intent observe (request expected) reboot_path d ≡ ok pending
    → begin_or_resume observe t (request expected) i reboot_path d ≡ ok (v, false, d')
    → is_other_boot pending i.boot_id_sha256 ≡ false
unfolding is_resumed
not_other_boot observe t expected i d d' v none e h = refl
not_other_boot observe t expected i d d' v (some w) e h =
    old_same observe t (request expected) i reboot_path d d' v w e h

prepare-IsAllowed :
    (sha256 : String → String) (observe : Observer) (expected : String) (t : Fresh) (a : Answers)
    (d d' : Disk) (v : Dict Json)
    → prepare sha256 observe expected t a d ≡ ok (v, false, d')
    → IsAllowed expected a
unfolding prepare
prepare-IsAllowed sha256 observe expected t a d d' v h =
    let (pending, e, r₁) = >>=-eq-ok (load_intent observe (request expected) reboot_path d) _ h in
    let (_, r₂) = >>-eq-ok (select_root_adbd a.selected a.identity) _ r₁ in
    let (_, r₃) = >>-eq-ok (if is_some pending then wait_for_boot a.resumed_boot else ok tt) _ r₂ in
    let (process, _, r₄) = >>=-eq-ok (system_server_identity a.shell) _ r₃ in
    let (digest, _, r₅) = >>=-eq-ok (current_boot_id_sha256 sha256 a.boot_id) _ r₄ in
    let (checked, r₆) = >>-eq-ok (check_source_state expected pending digest a.before) _ r₅ in
    let i : Identity = record {
      boot_id_sha256 = digest;
      pid = process.0;
      start_ticks = process.1;
    } in
    check_source_state-IsAllowed expected pending digest a checked
      (not_other_boot observe t expected i d d' v pending e r₆)

-- What a reboot has been validated by.
pub record IsValidated (sha256 : String → String) (observe : Observer) (expected : String)
    (a : Answers) (d : Disk) (o : Outcome) : Type 0 where
  pub source : Dict Json
  pub boot : String
  pub from :
      IsFrom observe
        (request expected)
        reboot_path
        d
        (current_boot_id_sha256 sha256 a.boot_id)
        source
        o.rebooted
        boot
  pub state : ModuleState
  pub mapped : Bool
  pub digest : String
  pub stable : verify_system_server_stability a.samples ≡ ok tt
  pub found : a.found ≡ ok (state, mapped)
  pub reached : expected ≢ "any" → state_text state ≡ expected
  pub unmapped : expected ≡ "absent" → mapped ≡ false
  pub booted : current_boot_id_sha256 sha256 a.final_boot_id ≡ ok digest
  pub new_boot : digest ≢ boot
  pub gone : lookup reboot_path o.disk.files ≡ none

module _ (sha256 : String → String) (observe : Observer) (expected : String) (a : Answers)
    (d : Disk) where
  prepare-IsFrom :
      (t : Fresh) (v : Dict Json) (resumed : Bool) (d' : Disk)
      → prepare sha256 observe expected t a d ≡ ok (v, resumed, d')
      → (boot : String) × IsFrom observe
          (request expected)
          reboot_path
          d
          (current_boot_id_sha256 sha256 a.boot_id)
          v
          (not resumed)
          boot
  prepare-IsFrom t v resumed d' h =
      let p = prepare-IsPrepared sha256 observe expected t a d d' v resumed h in
      let o =
        begin_or_resume_sound observe t (request expected) p.identity reboot_path d d' v resumed
          p.begins in
      (
        o.boot,
        handed_over-IsFrom observe (request expected) p.identity reboot_path d d'
            (current_boot_id_sha256 sha256 a.boot_id) v resumed p.digest o,
      )

  cleared-IsValidated :
      (d' : Disk) (v : Dict Json) (resumed : Bool) (r : Result (Unit {0})) (boot : String)
      → IsFrom observe
          (request expected)
          reboot_path
          d
          (current_boot_id_sha256 sha256 a.boot_id)
          v
          (not resumed)
          boot
      → validate_reboot sha256 observe expected a v resumed ≡ r
      → (cleared d' resumed r).result ≡ ok tt
      → IsValidated sha256 observe expected a d (cleared d' resumed r)
  unfolding validate_reboot
  cleared-IsValidated d' v resumed (err e) boot from same h = absurd (ground arith)
  cleared-IsValidated d' v resumed (ok _) boot from same h =
      let (_, r₁) = >>-eq-ok (send_reboot sha256 observe expected a v resumed) _ same in
      let (stable, r₂) = >>-eq-ok (verify_system_server_stability a.samples) _ r₁ in
      let (found, e, r₃) = >>=-eq-ok a.found _ r₂ in
      let (digest, f, r₄) = >>=-eq-ok (current_boot_id_sha256 sha256 a.final_boot_id) _ r₃ in
      let (other, r₅) = reject->>-eq-ok (field_is "source_boot_id_sha256" v digest) _ _ r₄ in
      let (reached, r₆) =
        reject->>-eq-ok (not (expected == "any") && not (state_text found.0 == expected)) _ _ r₅ in
      let unmapped = reject-eq-ok (expected == "absent" && found.1) _ r₆ in
      record {
        source = v;
        boot = boot;
        from = from;
        state = found.0;
        mapped = found.1;
        digest = digest;
        stable = stable;
        found = e;
        reached =
            λ one. ground (arith, eq_iff expected "any", eq_iff (state_text found.0) expected);
        unmapped = λ absent. ground (arith, eq_iff expected "absent");
        booted = f;
        new_boot = not_recorded v boot digest from.recorded other;
        gone = lookup-clear_intent reboot_path reboot_path d' ∙ refl;
      }

  carried_out-IsValidated :
      (t : Fresh) (p : Result (Dict Json × Bool × Disk))
      → prepare sha256 observe expected t a d ≡ p
      → (carried_out sha256 observe expected a d p).result ≡ ok tt
      → IsValidated sha256 observe expected a d (carried_out sha256 observe expected a d p)
  carried_out-IsValidated t (err e) same h = absurd (ground arith)
  carried_out-IsValidated t (ok (v, resumed, d')) same h =
      let (boot, from) = prepare-IsFrom t v resumed d' same in
      cleared-IsValidated d' v resumed (validate_reboot sha256 observe expected a v resumed) boot
        from refl h

-- The device is rebooted only if its module was found in a state that the reboot can lead to the
-- expected one. If `reboot_device` returns, then system_server was stable, the module is in the
-- expected state, and not mapped if it should be gone, and the intent is no longer there. The device
-- is then on another boot than the one that the intent records, and the intent is the one that was
-- pending, or, if none was, records the boot that the device was on; and if the device was
-- rebooted, the boot it was on is the recorded one.
pub reboot_device_sound :
    (sha256 : String → String) (observe : Observer) (expected : String) (t : Fresh) (a : Answers)
    (d : Disk)
    → ((reboot_device sha256 observe expected t a d).rebooted ≡ true → IsAllowed expected a)
      × ((reboot_device sha256 observe expected t a d).result ≡ ok tt
          → IsValidated sha256 observe expected a d (reboot_device sha256 observe expected t a d))
unfolding reboot_device
reboot_device_sound sha256 observe expected t a d = (
  λ sent.
      let (v, d', first) =
        carried_out-rebooted sha256 observe expected a d (prepare sha256 observe expected t a d)
          sent in
      prepare-IsAllowed sha256 observe expected t a d d' v first,
  λ returned.
      carried_out-IsValidated sha256 observe expected a d t (prepare sha256 observe expected t a d)
        refl returned,
)
