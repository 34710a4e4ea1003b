-- ===== src/RebootIntent/Lock.antt =====
-- `transition_lock` and `serialized_transition` of tools/automation/reboot_intent.py, among any
-- number of processes. The kernel's part is the lock's holder, which it also clears when a process
-- dies.
pub mod Exclusion
use zygveil.Base.{
  ℕ, ◌≡◌, ◌≢◌, String, Bool, true, false, not, ◌&&◌, Option, none, some, eqb, Result, ok, err,
  ◌>>=◌, ◌>>◌, reject, if◌then◌else◌,
}
use zygveil.SafeRead.{FileKind, is_regular, Stat, private_mode}

-- What one process is doing: nothing, between `os.open` and `flock`, or in the body of the `with`.
pub data Phase : Type 0 where
  outside opened inside : Phase

-- The lock file as `os.fstat` shows it, who holds its lock, and who runs the automation.
pub record LockState : Type 0 where
  pub stat : Stat
  pub holder : Option ℕ
  pub getuid : ℕ
  pub phase : ℕ → Phase

abbrev pub set_phase : ℕ → Phase → (ℕ → Phase) → ℕ → Phase
set_phase p ph old q = if eqb p q then ph else old q

unfoldable pub is_lock_file : ℕ → Stat → Bool
is_lock_file getuid s =
    is_regular s.kind && eqb s.perm private_mode && eqb s.uid getuid && eqb s.nlink 1

-- `os.open`, with the directory in order and the file opened or made
unfoldable pub open_lock : ℕ → LockState → LockState
open_lock p s = record s { phase = set_phase p opened s.phase }

abbrev take_lock : ℕ → Option ℕ → LockState → Result (Unit {0}) × LockState
take_lock p none s = (ok tt, record s { holder = some p; phase = set_phase p inside s.phase })
take_lock p (some q) s = (
  err "another reboot-bearing transition is already running",
  record s { phase = set_phase p outside s.phase },
)

-- The identity check and `flock(LOCK_EX | LOCK_NB)`; an error closes the descriptor.
unfoldable pub enter : ℕ → LockState → Result (Unit {0}) × LockState
enter p s = if is_lock_file s.getuid s.stat then take_lock p s.holder s else (
  err "reboot transition lock identity is invalid",
  record s { phase = set_phase p outside s.phase },
)

abbrev released : ℕ → Option ℕ → Option ℕ
released p none = none
released p (some q) = if eqb p q then none else some q

-- `finally`: unlock and close. The death of a process does the same.
unfoldable pub leave : ℕ → LockState → LockState
leave p s = record s { holder = released p s.holder; phase = set_phase p outside s.phase }

-- A function behind the lock, run by process p: what it returns or raises passes through, and the
-- lock is given back either way. `body` works on a state of its own.
module _ {A S : Type 0} where
  abbrev run_body :
      ℕ → (S → Result A × S) → Result (Unit {0}) × LockState → S → Result A × S × LockState
  run_body p body (err e, s) x = (err e, x, s)
  run_body p body (ok _, s) x = let (r, y) = body x in (r, y, leave p s)

  unfoldable pub serialized_transition :
      ℕ → (S → Result A × S) → LockState → S → Result A × S × LockState
  serialized_transition p body s x = run_body p body (enter p (open_lock p s)) x

-- One step of one process.
pub data Step : LockState → LockState → Type 0 where
  opens : (p : ℕ) (s : LockState) → s.phase p ≡ outside → Step s (open_lock p s)
  enters : (p : ℕ) (s : LockState) → s.phase p ≡ opened → Step s (enter p s).1
  leaves : (p : ℕ) (s : LockState) → s.phase p ≡ inside → Step s (leave p s)
  dies : (p : ℕ) (s : LockState) → Step s (leave p s)

pub data Reach (s : LockState) : LockState → Type 0 where
  here : Reach s s
  next : {t u : LockState} → Reach s t → Step t u → Reach s u
