-- ===== src/LiveControl/Session.antt =====
-- `device_digest`, `require_identity`, `live_status` and `live_set` of
-- tools/automation/location_live_control.py, without the lines that go into the report. The checks of
-- the selected device are behind us: `shell` answers what a rooted adbd answers.
pub mod Bound
use zygveil.Base.{
  ℕ, ◌+◌, String, Bool, true, false, not, ◌&&◌, ◌||◌, ◌==◌, Option, none, some, List, [], ◌∷◌, eqb,
  is_sha256, join, strip, words, Result, ok, err, ◌>>=◌, ◌>>◌, reject, if◌then◌else◌,
}
use zygveil.SafeRead.{Target, read_private_file}
use zygveil.Adb.Process.{CommandResult, Shell, system_server_process_identity}
use zygveil.LiveControl.Status.{Status, is_active, is_waiting}
use zygveil.LiveControl.Generations.{parse_status, require_expected_control}
use zygveil.LiveControl.Input.{validate_live_input}
use zygveil.LiveControl.Update.{Observed, judge_update}

abbrev pub module_dir : String
module_dir = "/data/adb/modules/zygveil"

abbrev pub helper : String
helper = "/data/adb/modules/zygveil/locationctl"

abbrev pub config : String
config = "/data/adb/modules/zygveil/config.properties"

abbrev pub single_digest : ℕ → List String → Result String
single_digest code (digest ∷ name ∷ []) =
    if eqb code 0 && is_sha256 digest
    then ok digest
    else err "device live-control file digest is unavailable"
single_digest code _ = err "device live-control file digest is unavailable"

unfoldable pub device_digest : Shell → ℕ → String → Result String
unfolding words is_sha256
device_digest shell n path =
    let result = shell n ("sha256sum" ∷ path ∷ []) in
    single_digest result.returncode (words result.stdout)

-- A command that exits with 0 and prints this, spaces at its ends aside.
abbrev pub prints : CommandResult → String → Bool
prints result text = eqb result.returncode 0 && strip result.stdout == text

unfoldable pub check_module : Shell → ℕ → Result (Unit {0})
unfolding strip
check_module shell n = do
  reject
      (not (prints (shell n ("stat" ∷ "-c" ∷ "%F:%a:%u:%g" ∷ module_dir ∷ [])) "directory:755:0:0"))
      "installed location module directory identity mismatch"
  reject
      (not (
        prints (shell (n + 1) ("stat" ∷ "-c" ∷ "%F:%a:%u:%g:%h" ∷ helper ∷ []))
          "regular file:755:0:0:1"))
      "installed location helper type/mode/owner/link identity mismatch"

-- With `poc` no digest is read.
unfoldable pub check_helper : Bool → String → Shell → ℕ → Result (Unit {0})
check_helper true expected_helper shell n = ok tt
check_helper false expected_helper shell n = do
  digest ← device_digest shell n helper
  reject (not (digest == expected_helper)) "installed location helper hash mismatch"

unfoldable pub read_status : Shell → ℕ → Result Status
read_status shell n = do
  let result = shell n (helper ∷ "status" ∷ [])
  reject (not (eqb result.returncode 0)) "redacted location helper status failed"
  parse_status result.stdout

-- A command that is checked. The message of the error is cut short.
unfoldable pub read_boot_id : Shell → ℕ → Result String
unfolding strip
read_boot_id shell n =
    let result = shell n ("cat" ∷ "/proc/sys/kernel/random/boot_id" ∷ []) in
    if eqb result.returncode 0 then ok (strip result.stdout) else err "ADB command failed"

unfoldable pub has_boot_identity : Status → Bool
has_boot_identity s =
    not (s.boot_id == "unavailable")
    || not (s.system_server_pid == "0")
    || not (s.system_server_start_ticks == "0")

unfoldable pub check_bound : Status → String → String × String → Result (Unit {0})
unfolding has_boot_identity
check_bound s boot (pid, start_ticks) =
    reject
      (has_boot_identity s
        && (not (s.boot_id == boot)
            || not (s.system_server_pid == pid)
            || not (s.system_server_start_ticks == start_ticks)))
      "live helper status is not bound to the current boot/system_server"

unfoldable pub check_ready : Bool → Status → CommandResult → Result (Unit {0})
check_ready require_active s disable = do
  reject (is_active s && eqb disable.returncode 0)
      "active live configuration found an unexpected disable marker"
  reject (require_active && not (is_active s || is_waiting s))
      "live configuration requires a ready location runtime"

-- What is asked of the whole command, and the digest of the helper that was built.
pub record Build : Type 0 where
  pub poc : Bool
  pub expected_helper : String

unfoldable pub check_build : Build → Result (Unit {0})
check_build b =
    reject (not b.poc && not (is_sha256 b.expected_helper))
      "location helper build identity is unavailable; run make location-build"

-- From the n-th command on; the numbers of commands that are not given stay unused.
unfoldable pub require_identity : Build → Bool → Shell → ℕ → Result (Status × String)
require_identity b require_active shell n = do
  check_build b
  check_module shell n
  check_helper b.poc b.expected_helper shell (n + 2)
  s ← read_status shell (n + 3)
  boot ← read_boot_id shell (n + 4)
  process ← system_server_process_identity (λ k. shell (n + 5 + k))
  check_bound s boot process
  check_ready require_active s (shell (n + 9) ("test" ∷ "-e" ∷ join module_dir "/disable" ∷ []))
  ok (s, process.1)

-- `live_status`, up to the report
unfoldable pub live_status : Build → String → Shell → Result Status
live_status b expected shell = do
  found ← require_identity b false shell 0
  require_expected_control found.0 (if expected == "" then "any" else expected) none
  ok found.0

abbrev pub config_digest : Bool → Shell → ℕ → Result String
config_digest true shell n = ok ""
config_digest false shell n = device_digest shell n config

-- The device, with what `locationctl apply` answers to its standard input.
pub record Device : Type 0 where
  pub shell : Shell
  pub apply : String → CommandResult

-- What is read before, from, and after the helper.
unfoldable pub observe : Build → Device → String → Result Observed
observe b d helper_input = do
  before ← require_identity b true d.shell 0
  before_config_digest ← config_digest b.poc d.shell 10
  let result = d.apply helper_input
  response ← parse_status result.stdout
  after ← require_identity b true d.shell 11
  after_config_digest ← config_digest b.poc d.shell 21
  ok (record {
    poc = b.poc;
    before = before.0;
    before_start_ticks = before.1;
    before_config_digest = before_config_digest;
    returncode = result.returncode;
    response = response;
    after = after.0;
    after_start_ticks = after.1;
    after_config_digest = after_config_digest;
  })

unfoldable pub live_set : Build → String → ℕ → Target → Device → Result (Unit {0})
live_set b expected getuid input_file d = do
  raw ← read_private_file getuid input_file
  helper_input ← validate_live_input raw
  o ← observe b d helper_input
  judge_update o expected
