-- ===== src/Adb/Ui.antt =====
-- `ensure_device_ui_ready` of tools/automation/adb.py, with the lines it puts into the report. What
-- `read_device_ui_state` returns is a parameter, and so are the exit statuses of the two commands.
pub mod Ready
use zygveil.Base.{
  ℕ, String, Bool, true, false, not, ◌&&◌, ◌||◌, ◌==◌, List, [], ◌∷◌, ◌++◌, Dict, join, eqb, Result,
  ok, err, if◌then◌else◌,
}

-- `DeviceUiState`
pub record UiState : Type 0 where
  pub wakefulness : String
  pub window_awake : Bool
  pub keyguard_showing : Bool

unfoldable pub is_ready : UiState → Bool
is_ready s = s.wakefulness == "Awake" && s.window_awake && not s.keyguard_showing

-- A wait: the first reading, and those that begin before the deadline, one after another.
pub record Wait : Type 0 where
  pub first : Result UiState
  pub rounds : List (Result UiState)

unfoldable pub poll : UiState → List (Result UiState) → Result UiState
unfolding is_ready
poll state [] = ok state
poll state (ok next ∷ rounds) =
    let rest = poll next rounds in if is_ready state then ok state else rest
poll state (err e ∷ rounds) = if is_ready state then ok state else err e

abbrev pub start_poll : Result UiState → List (Result UiState) → Result UiState
start_poll (ok state) rounds = poll state rounds
start_poll (err e) rounds = err e

-- `wait_for_device_ui_state`
unfoldable pub wait_for_device_ui_state : Wait → Result UiState
unfolding poll
wait_for_device_ui_state w = start_poll w.first w.rounds

pub record Screen : Type 0 where
  pub initial : Result UiState
  pub wake_exit : ℕ
  pub after_wake : Wait
  pub dismiss_exit : ℕ
  pub after_dismiss : Wait

-- The report's lines, and what is returned or raised.
abbrev pub Logged : Type 0 → Type 0
Logged A = Dict String × Result A

abbrev pub show_bool : Bool → String
show_bool true = "true"
show_bool false = "false"

abbrev pub manual_unlock : {A : Type 0} → String → Logged A
manual_unlock why = (
  ("ui_ready", "false") ∷ ("ui_readiness_result", "manual_unlock_required") ∷ [],
  err (join "manual_unlock_required: " (join why "; unlock the phone and rerun the same target")),
)

abbrev pub and_then : {A B : Type 0} → Logged A → (A → Logged B) → Logged B
and_then (lines, ok a) f = let (more, r) = f a in (lines ++ more, r)
and_then (lines, err e) f = (lines, err e)

abbrev pub no_lines : {A : Type 0} → Result A → Logged A
no_lines r = ([], r)

abbrev pub note_action : List String → String → Result UiState → Logged (UiState × List String)
note_action actions action (ok state) = no_lines (ok (state, actions ++ (action ∷ [])))
note_action actions action (err e) = no_lines (err e)

-- The state after waking, and the actions so far.
unfoldable pub wake_display : Screen → UiState → Logged (UiState × List String)
unfolding join
wake_display d state =
    if not (state.wakefulness == "Awake") || not state.window_awake
    then (if eqb d.wake_exit 0
        then note_action [] "wake_display" (wait_for_device_ui_state d.after_wake)
        else manual_unlock "automation could not wake the display")
    else no_lines (ok (state, []))

unfoldable pub dismiss_keyguard : Screen → UiState × List String → Logged (UiState × List String)
dismiss_keyguard d (state, actions) =
    if state.keyguard_showing && eqb d.dismiss_exit 0
    then note_action actions "dismiss_noncredential_keyguard"
        (wait_for_device_ui_state d.after_dismiss)
    else no_lines (ok (state, actions))

abbrev pub comma_separated : List String → String
comma_separated [] = "none"
comma_separated (a ∷ []) = a
comma_separated (a ∷ b ∷ more) = join a (join "," (comma_separated (b ∷ more)))

unfoldable pub conclude : UiState × List String → Logged UiState
unfolding join is_ready
conclude (state, actions) =
    and_then
      (
        ("ui_readiness_actions", comma_separated actions)
            ∷ ("ui_final_wakefulness", state.wakefulness)
            ∷ ("ui_final_window_awake", show_bool state.window_awake)
            ∷ ("ui_final_keyguard_showing", show_bool state.keyguard_showing)
            ∷ ("ui_ready", show_bool (is_ready state))
            ∷ [],
        ok tt,
      )
      λ (_ : Unit {0}).
        if is_ready state then (("ui_readiness_result", "ready") ∷ [], ok state) else (
          ("ui_readiness_result", "manual_unlock_required") ∷ [],
          err
              "manual_unlock_required: credential-protected keyguard remains; unlock the phone and rerun the same target",
        )

abbrev pub initial_lines : UiState → Dict String
initial_lines s =
    ("ui_initial_wakefulness", s.wakefulness)
    ∷ ("ui_initial_window_awake", show_bool s.window_awake)
    ∷ ("ui_initial_keyguard_showing", show_bool s.keyguard_showing)
    ∷ []

abbrev pub with_initial : Screen → Result UiState → Logged UiState
with_initial d (err e) = manual_unlock "cannot prove display/keyguard state"
with_initial d (ok initial) =
    and_then (initial_lines initial, ok initial)
      λ s. and_then (wake_display d s) λ woken. and_then (dismiss_keyguard d woken) conclude

unfoldable pub ensure_device_ui_ready : Screen → Logged UiState
unfolding join
ensure_device_ui_ready d = with_initial d d.initial
