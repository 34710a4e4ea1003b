-- ===== src/Adb/Process.antt =====
-- `system_server_process_identity` of tools/automation/adb.py. `isdigit` is the one on ASCII.
pub mod Identity
use zygveil.Base.{
  ℕ, ◌-◌, String, Bool, true, false, not, ◌||◌, ◌==◌, Option, none, some, List, [], ◌∷◌, eqb,
  isdigit, join, strip, words, after_last, drop_char, Result, ok, err, ◌>>=◌, ◌>>◌, reject,
  if◌then◌else◌, ◌&&◌,
}

-- `CommandResult`
pub record CommandResult : Type 0 where
  pub returncode : ℕ
  pub stdout : String

-- What the device answers to the n-th command, which may be another answer each time.
abbrev pub Shell : Type 0
Shell = ℕ → List String → CommandResult

abbrev pub single_pid : ℕ → List String → Result String
single_pid code (pid ∷ []) =
    if eqb code 0 && isdigit pid
    then ok pid
    else err "system_server PID is unavailable or ambiguous"
single_pid code _ = err "system_server PID is unavailable or ambiguous"

unfoldable pub read_pid : Shell → ℕ → Result String
unfolding words isdigit
read_pid shell n =
    let result = shell n ("pidof" ∷ "system_server" ∷ []) in
    single_pid result.returncode (words result.stdout)

-- `fields[i]`
abbrev pub field_at : ℕ → List String → Option String
field_at i [] = none
field_at i (w ∷ ws) = if eqb i 0 then some w else field_at (i - 1) ws

abbrev pub fields_behind : Option String → List String
fields_behind none = []
fields_behind (some rest) = words (drop_char rest)

-- The fields of a line of `/proc/<pid>/stat` behind the command, which ends with the last `)`.
unfoldable pub stat_fields : String → List String
unfolding after_last drop_char words
stat_fields body = fields_behind (after_last b')' body)

abbrev pub checked_ticks : ℕ → Option String → Result String
checked_ticks code none = err "system_server start-time identity is unavailable"
checked_ticks code (some ticks) =
    if eqb code 0 && isdigit ticks
    then ok ticks
    else err "system_server start-time identity is unavailable"

unfoldable pub read_start_ticks : Shell → ℕ → String → Result String
unfolding strip stat_fields join isdigit
read_start_ticks shell n pid =
    let result = shell n ("cat" ∷ join "/proc/" (join pid "/stat") ∷ []) in
    checked_ticks result.returncode (field_at 19 (stat_fields (strip result.stdout)))

abbrev changed : String
changed = "system_server identity changed during inspection"

unfoldable pub system_server_process_identity : Shell → Result (String × String)
system_server_process_identity shell = do
  pid ← read_pid shell 0
  start_ticks ← read_start_ticks shell 1 pid
  pid' ← read_pid shell 2
  reject (not (pid' == pid)) changed
  start_ticks' ← read_start_ticks shell 3 pid
  reject (not (start_ticks' == start_ticks)) changed
  ok (pid, start_ticks)
