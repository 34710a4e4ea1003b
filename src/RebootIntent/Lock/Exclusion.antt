-- ===== src/RebootIntent/Lock/Exclusion.antt =====
-- Mutual exclusion of the transitions behind the lock of tools/automation/reboot_intent.py.
use zygveil.Base.{ℕ, ◌≡◌, ◌≢◌, ◌∙◌, refl, sym, true, none, some, some-injective, Result, err, arith}
use zygveil.RebootIntent.Lock.{
  inside, LockState, is_lock_file, open_lock, enter, leave, serialized_transition, Step, opens,
  enters, leaves, dies, Reach, here, next,
}

-- Who is in the body holds the lock.
abbrev pub Inv : LockState → Type 0
Inv s = (p : ℕ) → s.phase p ≡ inside → s.holder ≡ some p

open_lock-Inv : (p : ℕ) (s : LockState) → Inv s → Inv (open_lock p s)
unfolding open_lock
open_lock-Inv p s h q i = ground (arith, h q)

enter-Inv : (p : ℕ) (s : LockState) → Inv s → Inv (enter p s).1
unfolding enter
enter-Inv p s h q i = ground (arith, h q)

leave-Inv : (p : ℕ) (s : LockState) → Inv s → Inv (leave p s)
unfolding leave
leave-Inv p s h q i = ground (arith, h q)

Step-Inv : {s t : LockState} → Step s t → Inv s → Inv t
Step-Inv (opens p s _) h = open_lock-Inv p s h
Step-Inv (enters p s _) h = enter-Inv p s h
Step-Inv (leaves p s _) h = leave-Inv p s h
Step-Inv (dies p s) h = leave-Inv p s h

Reach-Inv : {s t : LockState} → Inv s → Reach s t → Inv t
Reach-Inv h here = h
Reach-Inv h (next r st) = Step-Inv st (Reach-Inv h r)

-- From a state in which no process is in the body, whatever the processes do in whatever order, and
-- even if some of them die, two processes in the body are one.
pub transition_lock_exclusive :
    (s t : LockState)
    → ((p : ℕ) → s.phase p ≢ inside)
    → Reach s t
    → (p q : ℕ) → t.phase p ≡ inside
    → t.phase q ≡ inside
    → p ≡ q
transition_lock_exclusive s t quiet r p q hp hq =
    let inv = Reach-Inv {s = s} (λ n i. absurd (quiet n i)) r in
    some-injective p q (sym (inv p hp) ∙ inv q hq)

-- A call behind a free lock, whose file passes the check, returns or raises what its body does, with
-- the state that the body leaves, and gives the lock back. While somebody else holds the lock it
-- raises, and neither its body runs nor does the holder change.
pub serialized_transition_lem :
    {A S : Type 0} (p : ℕ) (body : S → Result A × S) (s : LockState) (x : S)
    → is_lock_file s.getuid s.stat ≡ true
    → (s.holder ≡ none
        → ((serialized_transition p body s x).0 ≡ (body x).0)
          × ((serialized_transition p body s x).1 ≡ (body x).1)
          × ((serialized_transition p body s x).2.holder ≡ none))
      × ((q : ℕ)
          → s.holder ≡ some q
          → ((serialized_transition p body s x).0
              ≡ err "another reboot-bearing transition is already running")
            × ((serialized_transition p body s x).1 ≡ x)
            × ((serialized_transition p body s x).2.holder ≡ some q))
unfolding serialized_transition open_lock enter leave
serialized_transition_lem p body s x file =
    (λ h. rw (file, h) (refl, refl, ground arith), λ q h. rw (file, h) (refl, refl, refl))
