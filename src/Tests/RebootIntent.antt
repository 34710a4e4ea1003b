-- ===== src/Tests/RebootIntent.antt =====
-- The theorems about reboot intents at concrete requests, disks and processes.
use zygveil.Base.{
  ℕ, suc, String, ◌≡◌, ◌≢◌, refl, subst, sym, ◌⊎◌, true, false, ◌==◌, none, some, List, [], ◌∷◌,
  take, keys, lookup, any, join, count_chars, is_sha256, Bool-cases, inl, inr, Result, ok, err,
  eq_iff, if◌then◌else◌, arith,
}
use zygveil.SafeRead.{regular, directory, Stat, private_mode}
use zygveil.SafeRead.Exact.{Serves, done, next, IsPrivate}
use zygveil.RebootIntent.Document.{
  Request, Identity, is_intent, is_name, is_state_name, is_context, is_counter, new_intent,
}
use zygveil.RebootIntent.Disk.{
  Node, Disk, fstat, create_directory, reject_conflicting_intents, is_conflict,
}
use zygveil.RebootIntent.Store.{
  Fresh, Observer, canonical, run, write_calls, load_intent, begin_or_resume, clear_intent,
  is_resumed,
}
use zygveil.RebootIntent.Store.Crash.{written, write_calls_atomic}
use zygveil.RebootIntent.Store.Resume.{IsFaithful, load_private}
use zygveil.RebootIntent.Store.RoundTrip.{
  sorted_intent, parse_intent-new_intent, count_chars-new_intent,
}
use zygveil.RebootIntent.Document.Texts.{valid_texts}
use zygveil.RebootIntent.Store.Source.{IsHandedOver, begin_or_resume_sound}
use zygveil.RebootIntent.Store.Pending.{
  begin_then_resume, begin_or_resume_pending, IsBounded, IsPending, load_intent_sound,
  clear_intent_lem,
}
use zygveil.RebootIntent.Lock.{
  outside, LockState, is_lock_file, open_lock, enter, serialized_transition, opens, enters, Reach,
  here, next as then_step,
}
use zygveil.RebootIntent.Lock.Exclusion.{transition_lock_exclusive, serialized_transition_lem}

-- A system that hands a whole file over in one block.
unfoldable pub portions : String → List String
portions s = if s == "" then [] else s ∷ []

join-nil : (s : String) → join s "" ≡ s
unfolding join
join-nil String.[] = refl
join-nil (String.◌∷◌ c s) = rw (join-nil s)

portions-Serves : (s : String) → Serves s (portions s)
unfolding portions
portions-Serves s = elim (Bool-cases (s == "")) [
  | inl e ↦ rw e (subst (λ x. Serves x []) (sym ((eq_iff s "").0 e)) done)
  | inr e ↦ rw e (subst (λ x. Serves x (s ∷ [])) (join-nil s) (next s e done))
]

abbrev pub quiet : Observer
quiet n = record { before = fstat n; blocks = portions n.content; after = fstat n }

pub quiet-IsFaithful : IsFaithful quiet
quiet-IsFaithful = record { at = λ n. (portions n.content, refl, portions-Serves n.content) }

quiet-IsBounded : IsBounded quiet
unfolding portions fstat count_chars
quiet-IsBounded = record { at = λ n. ground arith }

abbrev request : Request
request = record {
  operation = "location-reboot";
  expected_state = "active";
  context_id = "location";
}

abbrev first_boot : Identity
first_boot = record {
  boot_id_sha256 = "aaaaaaaaaaaaaaaaaaaaaaaaaaaaaaaaaaaaaaaaaaaaaaaaaaaaaaaaaaaaaaaa";
  pid = "123";
  start_ticks = "456";
}

abbrev second_boot : Identity
second_boot = record {
  boot_id_sha256 = "bbbbbbbbbbbbbbbbbbbbbbbbbbbbbbbbbbbbbbbbbbbbbbbbbbbbbbbbbbbbbbbb";
  pid = "789";
  start_ticks = "12";
}

abbrev pub temporary : Fresh
temporary = record { name = ".location.json.x1.tmp"; dev = 1; ino = 7; mtime_ns = 5 }

abbrev path : String
path = "location.json"

abbrev pub bare : Disk
bare = record { folder = none; files = []; getuid = 1000 }

abbrev made : Disk
made = record {
  folder = some (record { kind = directory; perm = 0o700; uid = 1000 });
  files = [];
  getuid = 1000;
}

request-valid : is_intent (new_intent request first_boot) request ≡ true
unfolding is_intent new_intent is_name is_state_name is_context is_counter is_sha256
request-valid = refl

bare-nothing : load_intent quiet request path bare ≡ ok none
unfolding load_intent reject_conflicting_intents lookup
bare-nothing = refl

bare-made : create_directory bare ≡ ok made
unfolding create_directory
bare-made = refl

apart : temporary.name ≢ path
apart p = cc ((eq_iff temporary.name path).1 p)

begin_then_resume_example :
    (d' : Disk) × (begin_or_resume quiet temporary request first_boot path bare
      ≡ ok (new_intent request first_boot, false, d'))
    × (load_intent quiet request path d' ≡ ok (some (sorted_intent request first_boot)))
    × ((t' : Fresh) (i' : Identity)
        → first_boot.boot_id_sha256 ≢ i'.boot_id_sha256
        → begin_or_resume quiet t' request i' path d'
          ≡ ok (sorted_intent request first_boot, true, d'))
begin_then_resume_example =
    begin_then_resume quiet temporary request first_boot path bare made quiet-IsFaithful
      request-valid bare-nothing bare-made (λ e. refl) apart

write_calls_atomic_example :
    (lookup path (run temporary path (take 3 (write_calls ("ab" ∷ "c" ∷ []))) made).files
      ≡ lookup path made.files)
    ⊎ (lookup path (run temporary path (take 3 (write_calls ("ab" ∷ "c" ∷ []))) made).files
        ≡ some (written temporary made.getuid ("ab" ∷ "c" ∷ [])))
write_calls_atomic_example = write_calls_atomic temporary path ("ab" ∷ "c" ∷ []) made 3 apart

-- A disk with a pending intent.
abbrev pending_disk : Disk
pending_disk = record made {
  files = (path, written temporary 1000 (canonical (new_intent request first_boot) ∷ [])) ∷ [];
}

abbrev pending_node : Node
pending_node = written temporary 1000 (canonical (new_intent request first_boot) ∷ [])

pending-IsPrivate : IsPrivate 1000 4096 (fstat pending_node)
unfolding fstat join
pending-IsPrivate =
    let (long, short) =
      count_chars-new_intent request first_boot (valid_texts request first_boot request-valid) in
    record {
      kind = refl;
      perm = refl;
      owner = refl;
      one_link = refl;
      nonempty = long;
      bounded = short;
    }

pending_content : pending_node.content ≡ canonical (new_intent request first_boot)
unfolding join
pending_content = refl

pending_alone : reject_conflicting_intents path pending_disk ≡ ok tt
unfolding reject_conflicting_intents
pending_alone = refl

pending_found : lookup path pending_disk.files ≡ some pending_node
unfolding lookup
pending_found = refl

pending : load_intent quiet request path pending_disk ≡ ok (some (sorted_intent request first_boot))
unfolding load_intent
pending =
    rw (pending_alone, pending_found)
      (load_private quiet quiet-IsFaithful request 1000 pending_node
        (sorted_intent request first_boot) pending-IsPrivate
        (rw pending_content (parse_intent-new_intent request first_boot request-valid)))

resumed_pending :
    begin_or_resume quiet temporary request second_boot path pending_disk
    ≡ ok (sorted_intent request first_boot, true, pending_disk)
unfolding is_resumed lookup
resumed_pending =
    begin_or_resume_pending quiet temporary request second_boot path pending_disk
      (sorted_intent request first_boot) pending

begin_or_resume_sound_example :
    IsHandedOver quiet request second_boot path pending_disk
      (sorted_intent request first_boot)
      true
      pending_disk
begin_or_resume_sound_example =
    begin_or_resume_sound quiet temporary request second_boot path pending_disk pending_disk
      (sorted_intent request first_boot) true resumed_pending

load_intent_sound_example :
    IsPending quiet request path pending_disk (sorted_intent request first_boot)
    × (any (is_conflict path) (keys pending_disk.files) ≡ false)
load_intent_sound_example =
    load_intent_sound quiet request path pending_disk (sorted_intent request first_boot)
      quiet-IsBounded (λ e. cc) pending

clear_intent_lem_example :
    (load_intent quiet request path (clear_intent path pending_disk) ≡ ok none)
    × ((j : String)
        → path ≢ j
        → lookup j (clear_intent path pending_disk).files ≡ lookup j pending_disk.files)
clear_intent_lem_example = clear_intent_lem quiet request path pending_disk pending_alone (λ e. cc)

abbrev lock_stat : Stat
lock_stat = record {
  dev = 1;
  ino = 2;
  kind = regular;
  perm = private_mode;
  uid = 1000;
  nlink = 1;
  size = 0;
  mtime_ns = 0;
}

abbrev idle : LockState
idle = record { stat = lock_stat; holder = none; getuid = 1000; phase = λ p. outside }

one_inside : Reach idle (enter 4 (open_lock 4 idle)).1
unfolding open_lock
one_inside = then_step (then_step here (opens 4 idle refl)) (enters 4 (open_lock 4 idle) refl)

transition_lock_exclusive_example : ◌≡◌ {A = ℕ} 4 4
unfolding open_lock enter is_lock_file
transition_lock_exclusive_example =
    transition_lock_exclusive idle (enter 4 (open_lock 4 idle)).1 (λ p e. ground arith) one_inside 4
      4 refl refl

idle_file : is_lock_file idle.getuid idle.stat ≡ true
unfolding is_lock_file
idle_file = refl

abbrev count_up : ℕ → Result String × ℕ
count_up n = (err "failed", suc n)

serialized_transition_lem_example :
    (idle.holder ≡ none
      → ((serialized_transition 4 count_up idle 0).0 ≡ (count_up 0).0)
        × ((serialized_transition 4 count_up idle 0).1 ≡ (count_up 0).1)
        × ((serialized_transition 4 count_up idle 0).2.holder ≡ none))
    × ((q : ℕ)
        → idle.holder ≡ some q
        → ((serialized_transition 4 count_up idle 0).0
            ≡ err "another reboot-bearing transition is already running")
          × ((serialized_transition 4 count_up idle 0).1 ≡ 0)
          × ((serialized_transition 4 count_up idle 0).2.holder ≡ some q))
serialized_transition_lem_example = serialized_transition_lem 4 count_up idle 0 idle_file
