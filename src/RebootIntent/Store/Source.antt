-- ===== src/RebootIntent/Store/Source.antt =====
-- Whose intent `begin_or_resume` of tools/automation/reboot_intent.py hands over, and what it records.
use zygveil.Base.{
  String, ◌≡◌, ◌≢◌, refl, sym, ap, subst, ◌∙◌, ◌⊎◌, inl, inr, Bool, true, false, not, Option, none,
  some, Dict, [], ◌∷◌, Result, ok, >>=-eq-ok, reject->>-eq-ok, ok-injective, not-eq-true, eq_iff,
  arith,
}
use zygveil.Json.{Json}
use zygveil.RebootIntent.Document.{Request, Identity, is_intent, new_intent, validate_intent}
use zygveil.RebootIntent.Disk.{Disk}
use zygveil.RebootIntent.Store.{
  Fresh, Observer, load_intent, field_is, judge, begin_with, begin_or_resume, write_intent,
  canonical,
}
use zygveil.RebootIntent.Store.Pending.{judge-new_intent}
use zygveil.RebootIntent.Store.Judged.{
  Records, Agrees, IsJudged, judge-IsJudged, text_injective, is_intent-Records,
  load_intent-is_intent,
}

-- What the caller is handed over.
pub record IsHandedOver (observe : Observer) (r : Request) (i : Identity) (path : String) (d : Disk)
    (v : Dict Json) (resumed : Bool) (d' : Disk) : Type 0 where
  pub origin :
      ((load_intent observe r path d ≡ ok (some v)) × (d' ≡ d))
      ⊎ ((load_intent observe r path d ≡ ok none) × (v ≡ new_intent r i) × (resumed ≡ false))
  pub boot : String
  pub recorded : Records v boot
  pub other_boot : resumed ≡ true → boot ≢ i.boot_id_sha256
  pub this_boot :
      resumed ≡ false
      → (boot ≡ i.boot_id_sha256)
        × Agrees "source_system_server_pid" v i.pid
        × Agrees "source_system_server_start_ticks" v i.start_ticks

-- The same for what comes from the disk, and for what is new.
IsHandedOver-pending :
    (observe : Observer) (r : Request) (i : Identity) (path : String) (d d' : Disk)
    (w v : Dict Json) (resumed : Bool)
    → load_intent observe r path d ≡ ok (some w)
    → d ≡ d'
    → IsJudged i w v resumed
    → IsHandedOver observe r i path d v resumed d'
IsHandedOver-pending observe r i path d d' w v resumed found kept j =
    let there = subst (λ x. load_intent observe r path d ≡ ok (some x)) j.same found in
    let (boot, e) = is_intent-Records v r (load_intent-is_intent observe r path d v there) in
    record {
      origin = inl (there, sym kept);
      boot = boot;
      recorded = e;
      other_boot = j.apart boot e;
      this_boot = λ first.
          let (here, pid, ticks) = j.here first in
          (text_injective boot i.boot_id_sha256 (sym e ∙ here), pid, ticks);
    }

not_both : (b : Bool) → b ≡ true → b ≡ false → ⊥
not_both b h k = cc

IsHandedOver-new :
    (observe : Observer) (r : Request) (i : Identity) (path : String) (d d' : Disk) (v : Dict Json)
    (resumed : Bool)
    → load_intent observe r path d ≡ ok none
    → judge (new_intent r i) i ≡ ok (v, resumed)
    → IsHandedOver observe r i path d v resumed d'
IsHandedOver-new observe r i path d d' v resumed absent judged =
    let whole : (new_intent r i, false) ≡ (v, resumed) =
      ok-injective (sym (judge-new_intent r i) ∙ judged) in
    let first : resumed ≡ false = sym (ap (λ (x : Dict Json × Bool). x.1) whole) in
    let (here, pid, ticks) = (judge-IsJudged (new_intent r i) v i resumed judged).here first in
    record {
      origin = inr (absent, sym (ap (λ (x : Dict Json × Bool). x.0) whole), first);
      boot = i.boot_id_sha256;
      recorded = here;
      other_boot = λ again. absurd (not_both resumed again first);
      this_boot = λ first. (refl, pid, ticks);
    }

handed_over :
    (observe : Observer) (t : Fresh) (r : Request) (i : Identity) (path : String) (d d' : Disk)
    (v : Dict Json) (resumed : Bool) (found : Option (Dict Json)) (begun : Dict Json × Disk)
    → load_intent observe r path d ≡ ok found
    → begin_with t r i path d found ≡ ok begun
    → judge begun.0 i ≡ ok (v, resumed)
    → begun.1 ≡ d'
    → IsHandedOver observe r i path d v resumed d'
unfolding validate_intent
handed_over observe t r i path d d' v resumed (some w) begun e step kind disk =
    let same : (w, d) ≡ begun = ok-injective step in
    IsHandedOver-pending observe r i path d d' w v resumed e
      (ap (λ (x : Dict Json × Disk). x.1) same ∙ disk)
      (judge-IsJudged w v i resumed
        (subst (λ (x : Dict Json × Disk). judge x.0 i ≡ ok (v, resumed)) (sym same) kind))
handed_over observe t r i path d d' v resumed none begun e step kind disk =
    let (_, r₁) = reject->>-eq-ok (not (is_intent (new_intent r i) r)) _ _ step in
    let (written, _, r₂) =
      >>=-eq-ok (write_intent t path (canonical (new_intent r i) ∷ []) d) _ r₁ in
    let same : (new_intent r i, written) ≡ begun = ok-injective r₂ in
    IsHandedOver-new observe r i path d d' v resumed e
      (subst (λ (x : Dict Json × Disk). judge x.0 i ≡ ok (v, resumed)) (sym same) kind)

-- What `begin_or_resume` returns is the intent that is pending, with the disk as it is, or, if none
-- is, a new one, which is not resumed. It records a boot. If it is resumed that is another boot than
-- the caller's; if not, it is the caller's, and the recorded process id is "0" or the caller's, and
-- so is the recorded start time.
pub begin_or_resume_sound :
    (observe : Observer) (t : Fresh) (r : Request) (i : Identity) (path : String) (d d' : Disk)
    (v : Dict Json) (resumed : Bool)
    → begin_or_resume observe t r i path d ≡ ok (v, resumed, d')
    → IsHandedOver observe r i path d v resumed d'
unfolding begin_or_resume
begin_or_resume_sound observe t r i path d d' v resumed h =
    let (found, e, r₁) = >>=-eq-ok (load_intent observe r path d) _ h in
    let (begun, step, r₂) = >>=-eq-ok (begin_with t r i path d found) _ r₁ in
    let (judged, verdict, r₃) = >>=-eq-ok (judge begun.0 i) _ r₂ in
    let whole : (judged.0, judged.1, begun.1) ≡ (v, resumed, d') = ok-injective r₃ in
    let kind : judge begun.0 i ≡ ok (v, resumed) =
      verdict ∙ ap (λ (x : Dict Json × Bool × Disk). ok (x.0, x.1)) whole in
    let disk : begun.1 ≡ d' = ap (λ (x : Dict Json × Bool × Disk). x.2) whole in
    handed_over observe t r i path d d' v resumed found begun e step kind disk

-- Where the intent comes from that a reboot is validated against, and the boot that it records.
-- `current` is what the device answers for its boot at the beginning.
pub record IsFrom (observe : Observer) (r : Request) (path : String) (d : Disk)
    (current : Result String) (source : Dict Json) (rebooted : Bool) (boot : String) : Type 0 where
  pub recorded : Records source boot
  pub origin :
      (load_intent observe r path d ≡ ok (some source))
      ⊎ ((load_intent observe r path d ≡ ok none) × (rebooted ≡ true))
  pub left : rebooted ≡ true → current ≡ ok boot

pub handed_over-IsFrom :
    (observe : Observer) (r : Request) (i : Identity) (path : String) (d d' : Disk)
    (current : Result String) (v : Dict Json) (resumed : Bool)
    → current ≡ ok i.boot_id_sha256
    → (h : IsHandedOver observe r i path d v resumed d')
    → IsFrom observe r path d current v (not resumed) h.boot
handed_over-IsFrom observe r i path d d' current v resumed here h = record {
  recorded = h.recorded;
  origin = elim h.origin [
    | inl (there, _) ↦ inl there
    | inr (absent, _, first) ↦ inr (absent, ap not first)
  ];
  left =
      λ sent. let (same, _, _) = h.this_boot (not-eq-true resumed sent) in here ∙ ap ok (sym same);
}

-- A digest that is not the recorded one.
pub not_recorded :
    (v : Dict Json) (boot digest : String)
    → Records v boot
    → field_is "source_boot_id_sha256" v digest ≡ false
    → digest ≢ boot
not_recorded v boot digest e h = λ same. ground (arith, rw e at h, eq_iff boot digest)
