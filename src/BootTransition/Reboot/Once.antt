-- ===== src/BootTransition/Reboot/Once.antt =====
-- How often `reboot_device` of tools/automation/location_device.py reboots.
use zygveil.Base.{
  String, ◌≡◌, ◌≢◌, refl, sym, ap, subst, ◌∙◌, Bool, true, false, not, ◌&&◌, ◌||◌, Option, none,
  some, [], ◌∷◌, Dict, lookup, Result, ok, err, >>=-eq-ok, >>-eq-ok, reject->>-eq-ok, ok-injective,
  not-eq-false, Bool-cases, Option-cases, inl, inr, eq_iff, eq_refl, if◌then◌else◌, arith,
}
use zygveil.Json.{Json, text, is_str}
use zygveil.RebootIntent.Document.{Request, Identity, is_intent, new_intent, validate_intent}
use zygveil.RebootIntent.Disk.{Disk, create_directory}
use zygveil.RebootIntent.Store.{
  Fresh, Observer, load_intent, field_is, same_counter, is_resumed, write_intent, canonical,
  begin_with, begin_or_resume,
}
use zygveil.RebootIntent.Store.Resume.{IsFaithful, IsRooted}
use zygveil.RebootIntent.Store.RoundTrip.{sorted_intent}
use zygveil.RebootIntent.Store.Pending.{begin_then_resume, begin_or_resume_pending}
use zygveil.BootTransition.{
  select_root_adbd, current_boot_id_sha256, system_server_identity, wait_for_boot,
}
use zygveil.BootTransition.Reboot.{
  Answers, reboot_path, request, is_some, check_source_state, prepare, validate_reboot, cleared,
  carried_out, reboot_device,
}

-- The disk holds an intent that was begun on this boot.
record IsHeld (observe : Observer) (r : Request) (path : String) (d : Disk) (i : Identity)
    : Type 0 where
  intent : Dict Json
  pending : load_intent observe r path d ≡ ok (some intent)
  same : is_resumed intent i ≡ false

sorted_intent_same : (r : Request) (i : Identity) → is_resumed (sorted_intent r i) i ≡ false
unfolding is_resumed lookup
sorted_intent_same r i = ground (arith, eq_refl i.boot_id_sha256)

-- What a first step that goes on has gone through.
module _ (observe : Observer) (t : Fresh) (r : Request) (i : Identity) (path : String) (d d' : Disk)
    (v : Dict Json) where
  pub old_same :
      (w : Dict Json)
      → load_intent observe r path d ≡ ok (some w)
      → begin_or_resume observe t r i path d ≡ ok (v, false, d')
      → is_resumed w i ≡ false
  old_same w found h =
      let whole = sym (begin_or_resume_pending observe t r i path d w found) ∙ h in
      elim (Bool-cases (is_resumed w i)) [
        | inl resumed ↦
            let same : (w, true, d) ≡ (v, false, d') = ok-injective (rw resumed at whole) in
            absurd (ground (arith, ap (λ (x : Dict Json × Bool × Disk). x.1) same))
        | inr kept ↦ kept
      ]

  old-IsHeld :
      (w : Dict Json)
      → load_intent observe r path d ≡ ok (some w)
      → begin_or_resume observe t r i path d ≡ ok (v, false, d')
      → IsHeld observe r path d' i
  old-IsHeld w found h =
      let whole = sym (begin_or_resume_pending observe t r i path d w found) ∙ h in
      elim (Bool-cases (
        not (is_resumed w i)
        && (not (same_counter "source_system_server_pid" w i.pid)
            || not (same_counter "source_system_server_start_ticks" w i.start_ticks)))) [
              | inl changed ↦ absurd (ground (arith, rw changed at whole))
              | inr kept ↦
                  let same : (w, is_resumed w i, d) ≡ (v, false, d') =
                    ok-injective (rw kept at whole) in
                  record {
                    intent = w;
                    pending =
                        subst (λ x. load_intent observe r path x ≡ ok (some w))
                          (ap (λ (x : Dict Json × Bool × Disk). x.2) same) found;
                    same = ap (λ (x : Dict Json × Bool × Disk). x.1) same;
                  }
            ]

  new-IsHeld :
      IsFaithful observe
      → IsRooted d
      → t.name ≢ path
      → load_intent observe r path d ≡ ok none
      → begin_or_resume observe t r i path d ≡ ok (v, false, d')
      → IsHeld observe r path d' i
  unfolding begin_or_resume validate_intent write_intent
  new-IsHeld faithful rooted apart absent h =
      let (found, e, r₁) = >>=-eq-ok (load_intent observe r path d) _ h in
      let none_found : none ≡ found = ok-injective (sym absent ∙ e) in
      let (begun, r₂, _) = >>=-eq-ok (begin_with t r i path d found) _ r₁ in
      let step = subst (λ x. begin_with t r i path d x ≡ ok begun) (sym none_found) r₂ in
      let (valid, r₃) = reject->>-eq-ok (not (is_intent (new_intent r i) r)) _ _ step in
      let (written, made, _) =
        >>=-eq-ok (write_intent t path (canonical (new_intent r i) ∷ []) d) _ r₃ in
      let (ready, created, _) = >>=-eq-ok (create_directory d) _ made in
      let (e', begins, pending, _) =
        begin_then_resume observe t r i path d ready faithful (not-eq-false _ valid) absent created
          rooted apart in
      let same : (new_intent r i, false, e') ≡ (v, false, d') = ok-injective (sym begins ∙ h) in
      record {
        intent = sorted_intent r i;
        pending =
            subst (λ x. load_intent observe r path x ≡ ok (some (sorted_intent r i)))
              (ap (λ (x : Dict Json × Bool × Disk). x.2) same) pending;
        same = sorted_intent_same r i;
      }

begin-IsHeld :
    (observe : Observer) (t : Fresh) (r : Request) (i : Identity) (path : String) (d d' : Disk)
    (v : Dict Json)
    → IsFaithful observe
    → IsRooted d
    → t.name ≢ path
    → begin_or_resume observe t r i path d ≡ ok (v, false, d')
    → IsHeld observe r path d' i
unfolding begin_or_resume
begin-IsHeld observe t r i path d d' v faithful rooted apart h =
    let (found, e, _) = >>=-eq-ok (load_intent observe r path d) _ h in
    elim (Option-cases found) [
      | inl absent ↦ new-IsHeld observe t r i path d d' v faithful rooted apart (e ∙ ap ok absent) h
      | inr (w, there) ↦ old-IsHeld observe t r i path d d' v w (e ∙ ap ok there) h
    ]

-- The first step, as far as it matters for the reboot.
pub record IsPrepared (sha256 : String → String) (observe : Observer) (expected : String)
    (t : Fresh) (a : Answers) (d d' : Disk) (v : Dict Json) (resumed : Bool) : Type 0 where
  pub identity : Identity
  pub digest : current_boot_id_sha256 sha256 a.boot_id ≡ ok identity.boot_id_sha256
  pub begins :
      begin_or_resume observe t (request expected) identity reboot_path d ≡ ok (v, resumed, d')

pub prepare-IsPrepared :
    (sha256 : String → String) (observe : Observer) (expected : String) (t : Fresh) (a : Answers)
    (d d' : Disk) (v : Dict Json) (resumed : Bool)
    → prepare sha256 observe expected t a d ≡ ok (v, resumed, d')
    → IsPrepared sha256 observe expected t a d d' v resumed
unfolding prepare
prepare-IsPrepared sha256 observe expected t a d d' v resumed h =
    let (pending, _, r₁) = >>=-eq-ok (load_intent observe (request expected) reboot_path d) _ h in
    let (_, r₂) = >>-eq-ok (select_root_adbd a.selected a.identity) _ r₁ in
    let (_, r₃) = >>-eq-ok (if is_some pending then wait_for_boot a.resumed_boot else ok tt) _ r₂ in
    let (process, _, r₄) = >>=-eq-ok (system_server_identity a.shell) _ r₃ in
    let (digest, e, r₅) = >>=-eq-ok (current_boot_id_sha256 sha256 a.boot_id) _ r₄ in
    let (_, r₆) = >>-eq-ok (check_source_state expected pending digest a.before) _ r₅ in
    record {
      identity = record { boot_id_sha256 = digest; pid = process.0; start_ticks = process.1 };
      digest = e;
      begins = r₆;
    }

-- An outcome with a reboot, and the disk that an error leaves then.
cleared-rebooted :
    (d : Disk) (resumed : Bool) (r : Result (Unit {0}))
    → (cleared d resumed r).rebooted ≡ not resumed
cleared-rebooted d resumed (ok _) = refl
cleared-rebooted d resumed (err e) = refl

cleared-err :
    (d : Disk) (resumed : Bool) (r : Result (Unit {0})) (message : String)
    → (cleared d resumed r).result ≡ err message
    → (cleared d resumed r).disk ≡ d
cleared-err d resumed (ok _) message h = absurd (ground arith)
cleared-err d resumed (err e) message h = refl

module _ (sha256 : String → String) (observe : Observer) (expected : String) (a : Answers)
    (d : Disk) where
  pub carried_out-rebooted :
      (p : Result (Dict Json × Bool × Disk))
      → (carried_out sha256 observe expected a d p).rebooted ≡ true
      → (v : Dict Json) × (d' : Disk) × (p ≡ ok (v, false, d'))
  carried_out-rebooted (err e) h = absurd (ground arith)
  carried_out-rebooted (ok (v, resumed, d')) h =
      let sent : not resumed ≡ true =
        sym (cleared-rebooted d' resumed (validate_reboot sha256 observe expected a v resumed))
        ∙ h in
      let first : resumed ≡ false = ground arith in (v, d', ap (λ b. ok (v, b, d')) first)

  carried_out-err :
      (v : Dict Json) (resumed : Bool) (d' : Disk) (message : String)
      → (carried_out sha256 observe expected a d (ok (v, resumed, d'))).result ≡ err message
      → (carried_out sha256 observe expected a d (ok (v, resumed, d'))).disk ≡ d'
  carried_out-err v resumed d' message h =
      cleared-err d' resumed (validate_reboot sha256 observe expected a v resumed) message h

same_text :
    (key : String) (v : Dict Json) (x y : String)
    → field_is key v x ≡ true
    → field_is key v y ≡ true
    → x ≡ y
same_text key v x y h k = texts (lookup key v) h k
  where
    texts : (o : Option Json) → is_str o x ≡ true → is_str o y ≡ true → x ≡ y
    texts (some (text s)) h k = sym ((eq_iff s x).0 h) ∙ (eq_iff s y).0 k
    texts (some other) h k = absurd (ground arith)
    texts none h k = absurd (ground arith)

-- An intent that is not resumed was begun on the boot of the caller.
same_boot :
    (observe : Observer) (t : Fresh) (r : Request) (i j : Identity) (path : String) (d d' : Disk)
    (v : Dict Json)
    → IsHeld observe r path d i
    → begin_or_resume observe t r j path d ≡ ok (v, false, d')
    → i.boot_id_sha256 ≡ j.boot_id_sha256
unfolding is_resumed
same_boot observe t r i j path d d' v held h =
    let again = old_same observe t r j path d d' v held.intent held.pending h in
    same_text "source_boot_id_sha256" held.intent i.boot_id_sha256 j.boot_id_sha256
      (not-eq-false _ held.same) (not-eq-false _ again)

-- A reboot that was sent and not validated is not sent again but on the boot it was sent on: if
-- `reboot_device` has rebooted and raised, and reboots again, whatever the device answers, then it is
-- on the same boot as the first time. The reader is told the truth about the file, the temporary file
-- has another name, and there are files only if there is a directory.
pub reboot_device_once :
    (sha256 : String → String) (observe : Observer) (expected : String) (t t' : Fresh)
    (a a' : Answers) (d : Disk) (message : String)
    → IsFaithful observe
    → IsRooted d
    → t.name ≢ reboot_path
    → (reboot_device sha256 observe expected t a d).rebooted ≡ true
    → (reboot_device sha256 observe expected t a d).result ≡ err message
    → (reboot_device sha256 observe expected t' a'
        (reboot_device sha256 observe expected t a d).disk).rebooted
      ≡ true
    → current_boot_id_sha256 sha256 a'.boot_id ≡ current_boot_id_sha256 sha256 a.boot_id
unfolding reboot_device
reboot_device_once sha256 observe expected t t' a a' d message faithful rooted apart sent failed
      again =
    let (v, d', first) =
      carried_out-rebooted sha256 observe expected a d (prepare sha256 observe expected t a d)
        sent in
    let p = prepare-IsPrepared sha256 observe expected t a d d' v false first in
    let held =
      begin-IsHeld observe t (request expected) p.identity reboot_path d d' v faithful rooted apart
        p.begins in
    let disk : (carried_out sha256 observe expected a d
          (prepare sha256 observe expected t a d)).disk
        ≡ d' =
      ap (λ x. (carried_out sha256 observe expected a d x).disk) first
      ∙ carried_out-err sha256 observe expected a d v false d' message
          (ap (λ x. (carried_out sha256 observe expected a d x).result) (sym first) ∙ failed) in
    let (w, d'', second) =
      carried_out-rebooted sha256 observe expected a' d' (prepare sha256 observe expected t' a' d')
        (subst
          (λ x.
            (carried_out sha256 observe expected a' x
              (prepare sha256 observe expected t' a' x)).rebooted
            ≡ true)
          disk again) in
    let q = prepare-IsPrepared sha256 observe expected t' a' d' d'' w false second in
    let same =
      same_boot observe t' (request expected) p.identity q.identity reboot_path d' d'' w held
        q.begins in
    q.digest ∙ (ap ok (sym same) ∙ sym p.digest)
