-- ===== src/RebootIntent/Store/Pending.antt =====
-- The life of an intent of tools/automation/reboot_intent.py: begun, pending over a reboot, cleared.
use zygveil.Base.{
  String, ◌≡◌, ◌≢◌, refl, subst, some-injective, Bool, true, false, not, ◌&&◌, ◌||◌, ◌==◌, Option,
  none, some, Dict, keys, lookup, any, ok, err, >>=-eq-ok, >>-eq-ok, reject->>-eq-ok, ok-injective,
  not-eq-false, eq_iff, eq_refl, count_chars, arith, if◌then◌else◌,
}
use zygveil.SafeRead.{regular, is_regular, read_checked}
use zygveil.SafeRead.Exact.{Bounded, IsPrivate, read_checked_sound}
use zygveil.Json.{Json}
use zygveil.RebootIntent.Document.{Request, Identity, is_intent, new_intent, validate_intent}
use zygveil.RebootIntent.Disk.{
  Node, Disk, create_directory, inspect_directory, reject_conflicting_intents, is_conflict,
  reject_listed,
}
use zygveil.RebootIntent.Store.{
  Fresh, Observer, read_rule, canonical, decode, parse_intent, load_node, load_intent, is_resumed,
  judge, begin_or_resume, same_counter, write_intent, clear_intent, as_object,
}
use zygveil.RebootIntent.Store.Effects.{lookup-without, any-keys_free, free-any-keys}
use zygveil.RebootIntent.Store.Resume.{IsFaithful, IsRooted, load-begun, begun, no_conflict}
use zygveil.RebootIntent.Store.RoundTrip.{sorted_intent}

-- What a pending intent and the identity of the caller lead to.
resumed_of_boots :
    (r : Request) (i i' : Identity)
    → i.boot_id_sha256 ≢ i'.boot_id_sha256
    → is_resumed (sorted_intent r i) i' ≡ true
unfolding is_resumed lookup
resumed_of_boots r i i' h = ground (arith, eq_iff i.boot_id_sha256 i'.boot_id_sha256)

pub judge-new_intent :
    (r : Request) (i : Identity) → judge (new_intent r i) i ≡ ok (new_intent r i, false)
unfolding judge new_intent lookup
judge-new_intent r i = simp eq_refl (ground arith)

judge_resumed : (v : Dict Json) (i : Identity) → is_resumed v i ≡ true → judge v i ≡ ok (v, true)
unfolding judge
judge_resumed v i h = rw h refl

load-none :
    (observe : Observer) (r : Request) (path : String) (d : Disk)
    → load_intent observe r path d ≡ ok none
    → reject_conflicting_intents path d ≡ ok tt
unfolding load_intent
load-none observe r path d h = (>>-eq-ok (reject_conflicting_intents path d) _ h).0

-- A valid request with nothing pending begins: the intent is returned as not resumed, and from then
-- on every reader that is told the truth about the file finds it, with the same members in the
-- order of the file. A caller on another boot resumes it, with the boot and process that were
-- recorded at the beginning, and leaves the disk alone. The directory can be made and secured, holds
-- files only if it is there, and the temporary file has another name.
pub begin_then_resume :
    (observe : Observer) (t : Fresh) (r : Request) (i : Identity) (path : String) (d ready : Disk)
    → IsFaithful observe
    → is_intent (new_intent r i) r ≡ true
    → load_intent observe r path d ≡ ok none
    → create_directory d ≡ ok ready
    → IsRooted d
    → t.name ≢ path
    → (d' : Disk) × (begin_or_resume observe t r i path d ≡ ok (new_intent r i, false, d'))
      × (load_intent observe r path d' ≡ ok (some (sorted_intent r i)))
      × ((t' : Fresh) (i' : Identity)
          → i.boot_id_sha256 ≢ i'.boot_id_sha256
          → begin_or_resume observe t' r i' path d' ≡ ok (sorted_intent r i, true, d'))
unfolding begin_or_resume validate_intent write_intent
begin_then_resume observe t r i path d ready faithful valid absent made rooted apart =
    let found =
      load-begun observe faithful t r i valid path d ready apart rooted
        (load-none observe r path d absent) made in
    (
      begun observe faithful t r i valid path ready,
      rw absent (rw (valid, made) (rw (judge-new_intent r i))),
      found,
      λ t' i' other.
          rw found (rw (judge_resumed (sorted_intent r i) i' (resumed_of_boots r i i' other))),
    )

-- A pending intent is never rewritten: the caller gets it back, resumed exactly if its recorded boot
-- is not the caller's, and the disk as it is; but on the recorded boot it is an error if the recorded
-- process id or start time is neither "0" nor the caller's.
pub begin_or_resume_pending :
    (observe : Observer) (t : Fresh) (r : Request) (i : Identity) (path : String) (d : Disk)
    (v : Dict Json)
    → load_intent observe r path d ≡ ok (some v)
    → begin_or_resume observe t r i path d ≡ (
        if not (is_resumed v i)
          && (not (same_counter "source_system_server_pid" v i.pid)
              || not (same_counter "source_system_server_start_ticks" v i.start_ticks))
        then err "system_server changed within the pending reboot source boot"
        else ok (v, is_resumed v i, d))
unfolding begin_or_resume judge
begin_or_resume_pending observe t r i path d v h = rw h (ground arith)

-- No block that the system answers is longer than what is left of the file.
pub record IsBounded (observe : Observer) : Type 0 where
  pub at : (n : Node) → Bounded (observe n).before.size (observe n).blocks

-- What an accepted intent is.
pub record IsPending (observe : Observer) (r : Request) (path : String) (d : Disk) (v : Dict Json)
    : Type 0 where
  pub node : Node
  pub there : lookup path d.files ≡ some node
  pub kind : node.kind ≡ regular
  pub private : IsPrivate d.getuid 4096 (observe node).before
  pub matches : is_intent v r ≡ true
  pub whole : count_chars (canonical v) ≡ (observe node).before.size

pub parse_intent_sound :
    (r : Request) (raw : String) (v : Dict Json)
    → parse_intent r raw ≡ ok v
    → (is_intent v r ≡ true) × (raw ≡ canonical v)
unfolding parse_intent validate_intent
parse_intent_sound r raw v h =
    let (decoded, _, r₁) = >>=-eq-ok (decode raw) _ h in
    let (values, _, r₂) = >>=-eq-ok (as_object decoded) _ r₁ in
    let (valid, r₃) = reject->>-eq-ok (not (is_intent values r)) _ _ r₂ in
    let (same, r₄) = reject->>-eq-ok (not (raw == canonical values)) _ (ok values) r₃ in
    (
      subst (λ x. is_intent x r ≡ true) (ok-injective r₄) (not-eq-false _ valid),
      subst (λ x. raw ≡ canonical x) (ok-injective r₄)
          ((eq_iff raw (canonical values)).0 (not-eq-false _ same)),
    )

load_node_sound :
    (observe : Observer) (r : Request) (path : String) (d : Disk) (o : Option Node) (v : Dict Json)
    → IsBounded observe
    → lookup path d.files ≡ o
    → load_node observe r d.getuid o ≡ ok (some v)
    → IsPending observe r path d v
load_node_sound observe r path d none v bounded e h = absurd (ground arith)
load_node_sound observe r path d (some n) v bounded e h =
    let (kind, r₁) = reject->>-eq-ok (not (is_regular n.kind)) _ _ h in
    let (raw, read, r₂) = >>=-eq-ok (read_checked d.getuid read_rule (observe n)) _ r₁ in
    let (values, parsed, r₃) = >>=-eq-ok (parse_intent r raw) _ r₂ in
    let same : values ≡ v = some-injective values v (ok-injective r₃) in
    let (valid, text) =
      parse_intent_sound r raw v (subst (λ x. parse_intent r raw ≡ ok x) same parsed) in
    let (private, size, _) =
      read_checked_sound d.getuid read_rule (observe n) raw (bounded.at n) read in
    record {
      node = n;
      there = e;
      kind = ground arith;
      private = private;
      matches = valid;
      whole = rw (← text) size;
    }

-- An intent that is accepted stands in a private regular file of the caller's, of at most 4096 bytes
-- with one name; it has exactly the keys and the forms of an intent of this request, and the file's
-- length is that of its canonical text; and no other intent file is there. It is assumed that
-- the system hands over no more bytes than it is asked for, and that there are files only inside the directory.
pub load_intent_sound :
    (observe : Observer) (r : Request) (path : String) (d : Disk) (v : Dict Json)
    → IsBounded observe
    → IsRooted d
    → load_intent observe r path d ≡ ok (some v)
    → IsPending observe r path d v × (any (is_conflict path) (keys d.files) ≡ false)
unfolding load_intent
load_intent_sound observe r path d v bounded rooted h =
    let (alone, found) = >>-eq-ok (reject_conflicting_intents path d) _ h in
    (
      load_node_sound observe r path d (lookup path d.files) v bounded refl found,
      no_conflict path d rooted alone,
    )

reject_listed-false : (found : Bool) → reject_listed found false ≡ ok tt
reject_listed-false true = refl
reject_listed-false false = refl

pub lookup-clear_intent :
    (path j : String) (d : Disk)
    → lookup j (clear_intent path d).files ≡ (if path == j then none else lookup j d.files)
unfolding clear_intent
lookup-clear_intent path j d = lookup-without path j d.files

reject_conflicting-clear_intent :
    (path : String) (d : Disk)
    → reject_conflicting_intents path d ≡ ok tt
    → IsRooted d
    → reject_conflicting_intents path (clear_intent path d) ≡ ok tt
unfolding reject_conflicting_intents inspect_directory clear_intent
reject_conflicting-clear_intent path d alone rooted =
    let (found, e, _) = >>=-eq-ok (inspect_directory d) _ alone in
    let free : any (is_conflict path) (keys (clear_intent path d).files) ≡ false =
      free-any-keys (is_conflict path) (clear_intent path d).files λ j conflict. ground (
        arith,
        lookup-clear_intent path j d,
        any-keys_free (is_conflict path) d.files j (no_conflict path d rooted alone) conflict,
      ) in
    rw (e, free) (reject_listed-false found)

-- After a clear the same request finds nothing pending, whatever the file was, if no other intent
-- file is there and the directory passes its check or is missing; and every other file is as it was.
pub clear_intent_lem :
    (observe : Observer) (r : Request) (path : String) (d : Disk)
    → reject_conflicting_intents path d ≡ ok tt
    → IsRooted d
    → (load_intent observe r path (clear_intent path d) ≡ ok none)
      × ((j : String) → path ≢ j → lookup j (clear_intent path d).files ≡ lookup j d.files)
unfolding load_intent
clear_intent_lem observe r path d alone rooted = (
  rw (reject_conflicting-clear_intent path d alone rooted)
      (rw (lookup-clear_intent path path d, eq_refl path)),
  λ j other. ground (arith, lookup-clear_intent path j d, eq_iff path j),
)
