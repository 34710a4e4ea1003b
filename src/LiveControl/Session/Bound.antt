-- ===== src/LiveControl/Session/Bound.antt =====
-- What a finished `live_set` of tools/automation/location_live_control.py says of the device.
use zygveil.Base.{
  ℕ, ◌+◌, String, ◌≡◌, ◌≢◌, sym, subst, true, not, ◌||◌, [], ◌∷◌, eqb, join, ok, >>=-eq-ok,
  >>-eq-ok, reject->>-eq-ok, ok-injective, eq_iff, arith,
}
use zygveil.SafeRead.{Target, read_private_file}
use zygveil.Adb.Process.{CommandResult, Shell, system_server_process_identity}
use zygveil.Adb.Process.Identity.{HasIdentity, system_server_process_identity_iff}
use zygveil.LiveControl.Status.{Status, is_active, is_waiting}
use zygveil.LiveControl.Generations.{parse_status}
use zygveil.LiveControl.Generations.Order.{parse_status_wire}
use zygveil.LiveControl.Input.{Live, live_text, validate_live_input}
use zygveil.LiveControl.Input.Bounds.{IsLive, validate_live_input_sound}
use zygveil.LiveControl.Update.{Observed, judge_update}
use zygveil.LiveControl.Update.Growth.{judge_update-IsUnchanged}
use zygveil.LiveControl.Session.{
  Build, Device, module_dir, helper, check_build, check_module, check_helper, read_status,
  read_boot_id, check_bound, check_ready, require_identity, config_digest, observe, live_set,
}

-- The status is that of the system_server and the boot that are seen right behind it.
pub record IsBound (shell : Shell) (n : ℕ) (s : Status) (ticks : String) : Type 0 where
  pub process : HasIdentity (λ k. shell (n + 5 + k)) s.system_server_pid s.system_server_start_ticks
  pub ticks_read : ticks ≡ s.system_server_start_ticks
  pub boot : read_boot_id shell (n + 4) ≡ ok s.boot_id

live_of_ready :
    (s : Status) (disable : CommandResult)
    → check_ready true s disable ≡ ok tt
    → (is_active s || is_waiting s) ≡ true
unfolding check_ready
live_of_ready s disable h = ground arith

parsed_of_read :
    (shell : Shell) (n : ℕ) (s : Status)
    → read_status shell n ≡ ok s
    → parse_status (shell n (helper ∷ "status" ∷ [])).stdout ≡ ok s
unfolding read_status
parsed_of_read shell n s h =
    (reject->>-eq-ok (not (eqb (shell n (helper ∷ "status" ∷ [])).returncode 0)) _ _ h).1

check_bound-same :
    (s : Status) (boot pid ticks : String)
    → s.boot_id ≢ "unavailable"
    → check_bound s boot (pid, ticks) ≡ ok tt
    → (boot ≡ s.boot_id) × (pid ≡ s.system_server_pid) × (ticks ≡ s.system_server_start_ticks)
unfolding check_bound
check_bound-same s boot pid ticks real h = (
  ground (arith, eq_iff s.boot_id "unavailable", eq_iff s.boot_id boot),
  ground (arith, eq_iff s.boot_id "unavailable", eq_iff s.system_server_pid pid),
  ground (arith, eq_iff s.boot_id "unavailable", eq_iff s.system_server_start_ticks ticks),
)

IsBound-of_readings :
    (shell : Shell) (n : ℕ) (s : Status) (boot pid ticks : String)
    → read_boot_id shell (n + 4) ≡ ok boot
    → system_server_process_identity (λ k. shell (n + 5 + k)) ≡ ok (pid, ticks)
    → (boot ≡ s.boot_id) × (pid ≡ s.system_server_pid) × (ticks ≡ s.system_server_start_ticks)
    → IsBound shell n s ticks
IsBound-of_readings shell n s boot pid ticks b p (same_boot, same_pid, same_ticks) = record {
  process =
      subst (λ x. HasIdentity (λ k. shell (n + 5 + k)) x s.system_server_start_ticks) same_pid
        (subst (λ x. HasIdentity (λ k. shell (n + 5 + k)) pid x) same_ticks
          ((system_server_process_identity_iff (λ k. shell (n + 5 + k)) pid ticks).0 p));
  ticks_read = same_ticks;
  boot = subst (λ x. read_boot_id shell (n + 4) ≡ ok x) same_boot b;
}

live_boot :
    (shell : Shell) (n : ℕ) (s : Status)
    → read_status shell (n + 3) ≡ ok s
    → (is_active s || is_waiting s) ≡ true
    → s.boot_id ≢ "unavailable"
live_boot shell n s status live =
    let (_, _, real) =
      parse_status_wire (shell (n + 3) (helper ∷ "status" ∷ [])).stdout s
        (parsed_of_read shell (n + 3) s status) in
    (real live).2

require_identity-IsBound :
    (b : Build) (shell : Shell) (n : ℕ) (s : Status) (ticks : String)
    → require_identity b true shell n ≡ ok (s, ticks)
    → IsBound shell n s ticks
unfolding require_identity
require_identity-IsBound b shell n s ticks h =
    let (_, r₁) = >>-eq-ok (check_build b) _ h in
    let (_, r₂) = >>-eq-ok (check_module shell n) _ r₁ in
    let (_, r₃) = >>-eq-ok (check_helper b.poc b.expected_helper shell (n + 2)) _ r₂ in
    let (t, status, r₄) = >>=-eq-ok (read_status shell (n + 3)) _ r₃ in
    let (boot, booted, r₅) = >>=-eq-ok (read_boot_id shell (n + 4)) _ r₄ in
    let (process, seen, r₆) =
      >>=-eq-ok (system_server_process_identity (λ k. shell (n + 5 + k))) _ r₅ in
    let (bound, r₇) = >>-eq-ok (check_bound t boot process) _ r₆ in
    let (ready, r₈) =
      >>-eq-ok
        (check_ready true t (shell (n + 9) ("test" ∷ "-e" ∷ join module_dir "/disable" ∷ [])))
        (ok (t, process.1)) r₇ in
    let real =
      live_boot shell n t status
        (live_of_ready t (shell (n + 9) ("test" ∷ "-e" ∷ join module_dir "/disable" ∷ [])) ready) in
    let here : IsBound shell n t process.1 =
      IsBound-of_readings shell n t boot process.0 process.1 booted seen
        (check_bound-same t boot process.0 process.1 real bound) in
    subst (λ (x : Status × String). IsBound shell n x.0 x.1) (ok-injective r₈) here

-- What a finished update has gone through: a canonical text was sent, the readings before and after
-- passed the verdict, and the same process was the system_server before and after.
pub record IsUpdated (b : Build) (expected : String) (d : Device) : Type 0 where
  pub sent : String
  pub live : (l : Live) × (sent ≡ live_text l) × IsLive l
  pub seen : Observed
  pub read : observe b d sent ≡ ok seen
  pub judged : judge_update seen expected ≡ ok tt
  pub before : IsBound d.shell 0 seen.before seen.before_start_ticks
  pub after : IsBound d.shell 11 seen.after seen.after_start_ticks
  pub same_process :
      HasIdentity
        (λ k. d.shell (16 + k))
        seen.before.system_server_pid
        seen.before.system_server_start_ticks

-- The two statuses of an observation.
observe-IsBound :
    (b : Build) (d : Device) (text : String) (o : Observed)
    → observe b d text ≡ ok o
    → IsBound d.shell 0 o.before o.before_start_ticks
      × IsBound d.shell 11 o.after o.after_start_ticks
unfolding observe
observe-IsBound b d text o h =
    let (before, e₁, r₁) = >>=-eq-ok (require_identity b true d.shell 0) _ h in
    let (digest, _, r₂) = >>=-eq-ok (config_digest b.poc d.shell 10) _ r₁ in
    let (response, _, r₃) = >>=-eq-ok (parse_status (d.apply text).stdout) _ r₂ in
    let (after, e₂, r₄) = >>=-eq-ok (require_identity b true d.shell 11) _ r₃ in
    let (digest', _, r₅) = >>=-eq-ok (config_digest b.poc d.shell 21) _ r₄ in
    let same = ok-injective r₅ in
    (
      subst (λ (x : Observed). IsBound d.shell 0 x.before x.before_start_ticks) same
          (require_identity-IsBound b d.shell 0 before.0 before.1 e₁),
      subst (λ (x : Observed). IsBound d.shell 11 x.after x.after_start_ticks) same
          (require_identity-IsBound b d.shell 11 after.0 after.1 e₂),
    )

same_identity :
    (shell : Shell) (p q t u : String)
    → p ≡ q
    → t ≡ u
    → HasIdentity shell q u
    → HasIdentity shell p t
same_identity shell p q t u same same' h =
    subst (λ x. HasIdentity shell p x) (sym same') (subst (λ x. HasIdentity shell x u) (sym same) h)

-- If `live_set` returns, then the helper was sent the canonical text of a position within bounds,
-- what was read before and after passed the verdict, both statuses were those of the running boot
-- and of the system_server that `pidof` and its stat line showed, and that process, by id and start
-- time, was the same before and after the update.
pub live_set_sound :
    (b : Build) (expected : String) (getuid : ℕ) (input_file : Target) (d : Device)
    → live_set b expected getuid input_file d ≡ ok tt
    → IsUpdated b expected d
unfolding live_set
live_set_sound b expected getuid input_file d h =
    let (raw, _, r₁) = >>=-eq-ok (read_private_file getuid input_file) _ h in
    let (text, valid, r₂) = >>=-eq-ok (validate_live_input raw) _ r₁ in
    let (o, seen, judged) = >>=-eq-ok (observe b d text) _ r₂ in
    let (before, after) = observe-IsBound b d text o seen in
    let unchanged = judge_update-IsUnchanged o expected judged in
    record {
      sent = text;
      live = validate_live_input_sound raw text valid;
      seen = o;
      read = seen;
      judged = judged;
      before = before;
      after = after;
      same_process =
          same_identity (λ k. d.shell (16 + k)) o.before.system_server_pid o.after.system_server_pid
            o.before.system_server_start_ticks o.after.system_server_start_ticks unchanged.pid
            unchanged.start_ticks after.process;
    }
