-- ===== src/BootTransition.antt =====
-- What a transition over a reboot asks the device, in tools/automation/location_device.py:
-- `current_boot_id_sha256`, `select_root_adbd`, `system_server_identity`, `wait_for_boot`,
-- `wait_for_new_boot` and `verify_system_server_stability`, without the lines that go into the report.
-- A wait is the list of its rounds that begin before its deadline, which is finite since a round takes
-- its time.
pub mod Reboot
pub mod Recover
use zygveil.Base.{
  ℕ, ◌+◌, String, Bool, true, false, not, ◌&&◌, ◌||◌, ◌==◌, List, [], ◌∷◌, length, all, eqb, leb,
  strip, join, Result, ok, err, ◌>>=◌, ◌>>◌, reject, if◌then◌else◌,
}
use zygveil.Adb.Process.{CommandResult, Shell, system_server_process_identity}
use zygveil.LiveControl.Status.{has_text, is_uuid}

abbrev pub is_root : CommandResult → Bool
is_root result = eqb result.returncode 0 && has_text "uid=0" result.stdout

-- What `Adb.select` and then `id` answer.
unfoldable pub select_root_adbd : Result (Unit {0}) → CommandResult → Result (Unit {0})
select_root_adbd selected identity = do
  selected
  reject (not (is_root identity))
      "rooted adbd is required; run make adb-root (no su fallback is used)"

-- What `cat` of the boot id answers; `sha256` is hashlib's, in hexadecimal digits.
unfoldable pub current_boot_id_sha256 : (String → String) → CommandResult → Result String
unfolding strip is_uuid
current_boot_id_sha256 sha256 result = do
  reject (not (eqb result.returncode 0))
      "device file is unavailable: /proc/sys/kernel/random/boot_id"
  let boot_id = strip result.stdout
  reject (not (is_uuid boot_id)) "current kernel boot identity is invalid"
  ok (sha256 boot_id)

-- The process, its start time, and whether the module is mapped into it.
unfoldable pub system_server_identity : Shell → Result (String × String × Bool)
unfolding join
system_server_identity shell = do
  (pid, start_ticks) ← system_server_process_identity shell
  let maps = shell 4 ("cat" ∷ join "/proc/" (join pid "/maps") ∷ [])
  reject (not (eqb maps.returncode 0)) "system_server maps are unavailable to rooted adbd"
  (pid', start_ticks') ← system_server_process_identity (λ n. shell (n + 5))
  reject (not (pid' == pid && start_ticks' == start_ticks))
      "system_server identity changed during inspection"
  ok (
    pid,
    start_ticks,
    has_text "libzygveil.so" maps.stdout || has_text "/zygveil/zygisk/arm64-v8a.so" maps.stdout,
  )

-- What `wait_for_boot` is answered: whether the device comes back, the two properties in each round,
-- and what it takes to be root again.
pub record BootWait : Type 0 where
  pub available : ℕ
  pub rounds : List (CommandResult × CommandResult)
  pub identity : CommandResult
  pub root : ℕ
  pub available_again : ℕ
  pub identity_again : CommandResult

unfoldable pub poll_boot : List (CommandResult × CommandResult) → Result (Unit {0})
unfolding strip
poll_boot [] = err "Android did not reach completed boot state"
poll_boot ((completed, bootanim) ∷ rounds) =
    let later = poll_boot rounds in
    if strip completed.stdout == "1" && strip bootanim.stdout == "stopped" then ok tt else later

unfoldable pub root_after_boot : BootWait → Result (Unit {0})
root_after_boot w = if is_root w.identity then ok tt else do
  reject (not (eqb w.root 0)) "rooted adbd did not return after reboot"
  reject (not (eqb w.available_again 0)) "device did not return after rooted adbd restart"
  reject (not (is_root w.identity_again)) "adbd is not uid 0 after reboot"

unfoldable pub wait_for_boot : BootWait → Result (Unit {0})
wait_for_boot w = do
  reject (not (eqb w.available 0)) "device did not return to ADB after reboot"
  poll_boot w.rounds
  root_after_boot w

-- A round in which waiting for the device raises or fails, or in which the boot id is asked for, which
-- may raise in its turn.
pub data Round : Type 0 where
  refused unavailable : Round
  answered : CommandResult → Round
  broken : String → Round

module _ (sha256 : String → String) where
  unfoldable pub is_new_boot : String → CommandResult → Bool
  unfolding strip is_uuid
  is_new_boot source boot =
      eqb boot.returncode 0
      && is_uuid (strip boot.stdout)
      && not (sha256 (strip boot.stdout) == source)

  -- Whether some round before the deadline sees another boot.
  unfoldable pub sees_new_boot : String → List Round → Result Bool
  sees_new_boot source [] = ok false
  sees_new_boot source (refused ∷ rounds) = sees_new_boot source rounds
  sees_new_boot source (unavailable ∷ rounds) = sees_new_boot source rounds
  sees_new_boot source (broken message ∷ rounds) = err message
  sees_new_boot source (answered boot ∷ rounds) =
      let rest = sees_new_boot source rounds in if is_new_boot source boot then ok true else rest

  -- `after` and `confirmed` answer what is asked once another boot has been seen.
  unfoldable pub wait_for_new_boot :
      String → List Round → BootWait → CommandResult → Result (Unit {0})
  wait_for_new_boot source rounds after confirmed = do
    seen ← sees_new_boot source rounds
    reject (not seen) "device did not enter a new kernel boot before timeout"
    wait_for_boot after
    digest ← current_boot_id_sha256 sha256 confirmed
    reject (digest == source) "kernel boot identity regressed during reboot validation"

abbrev same_sample : String × String → String × String → Bool
same_sample a b = a.0 == b.0 && a.1 == b.1

abbrev all_same : List (String × String) → Bool
all_same [] = false
all_same (a ∷ samples) = all (same_sample a) samples

-- `len(samples) >= 3 and len(set(samples)) == 1`
unfoldable pub process_identity_samples_stable : List (String × String) → Bool
process_identity_samples_stable samples = leb 3 (length samples) && all_same samples

abbrev pub collect_samples :
    List (Result (String × String × Bool)) → Result (List (String × String))
collect_samples [] = ok []
collect_samples (r ∷ rs) = do
  (pid, start_ticks, _) ← r
  rest ← collect_samples rs
  ok ((pid, start_ticks) ∷ rest)

-- What `system_server_identity` returns in each round of the window.
unfoldable pub verify_system_server_stability :
    List (Result (String × String × Bool)) → Result (Unit {0})
verify_system_server_stability rounds = do
  samples ← collect_samples rounds
  reject (not (process_identity_samples_stable samples))
      "system_server PID/start-time identity changed during the stability window"
