-- ===== src/Adb/Ui/Ready.antt =====
-- When `ensure_device_ui_ready` of tools/automation/adb.py returns, and what its report then says.
use zygveil.Base.{
  String, ◌≡◌, refl, sym, subst, true, some, List, [], ◌∷◌, ◌++◌, Dict, lookup, Result, ok, err,
  Bool-cases, inl, inr, ok-injective, arith,
}
use zygveil.Adb.Ui.{
  UiState, is_ready, Screen, Logged, show_bool, wait_for_device_ui_state, wake_display,
  dismiss_keyguard, comma_separated, conclude, and_then, note_action, ensure_device_ui_ready,
  with_initial,
}

-- A first part that returns, and what follows it.
and_then-eq-ok :
    {A B : Type 0} (m : Logged A) (f : A → Logged B) (b : B)
    → (and_then m f).1 ≡ ok b
    → (a : A) × (m.1 ≡ ok a) × ((and_then m f).0 ≡ m.0 ++ (f a).0) × ((f a).1 ≡ ok b)
and_then-eq-ok (lines, ok a) f b h = (a, refl, refl, h)
and_then-eq-ok (lines, err e) f b h = cc

note_action_silent :
    (actions : List String) (action : String) (r : Result UiState)
    → (note_action actions action r).0 ≡ []
note_action_silent actions action (ok state) = refl
note_action_silent actions action (err e) = refl

wake_display_silent :
    (d : Screen) (s : UiState) (woken : UiState × List String)
    → (wake_display d s).1 ≡ ok woken
    → (wake_display d s).0 ≡ []
unfolding wake_display
wake_display_silent d s woken h =
    ground (arith, note_action_silent [] "wake_display" (wait_for_device_ui_state d.after_wake))

dismiss_keyguard_silent : (d : Screen) (x : UiState × List String) → (dismiss_keyguard d x).0 ≡ []
unfolding dismiss_keyguard
dismiss_keyguard_silent d (s, actions) = ground (
  arith,
  note_action_silent actions "dismiss_noncredential_keyguard"
      (wait_for_device_ui_state d.after_dismiss),
)

-- What the report says at the end.
pub record SaysReady (lines : Dict String) : Type 0 where
  pub ready : lookup "ui_ready" lines ≡ some "true"
  pub result : lookup "ui_readiness_result" lines ≡ some "ready"

conclude_sound :
    (x : UiState × List String) (s : UiState)
    → (conclude x).1 ≡ ok s
    → (is_ready s ≡ true) × (x.0 ≡ s)
unfolding conclude
conclude_sound (state, actions) s h = elim (Bool-cases (is_ready state)) [
  | inl ready ↦
      let same : state ≡ s = ok-injective (rw ready at h) in
      (subst (λ x. is_ready x ≡ true) same ready, same)
  | inr waits ↦ absurd (ground arith)
]

conclude_lines :
    (x : UiState × List String)
    → is_ready x.0 ≡ true
    → (conclude x).0
      ≡ ("ui_readiness_actions", comma_separated x.1)
        ∷ ("ui_final_wakefulness", x.0.wakefulness)
        ∷ ("ui_final_window_awake", show_bool x.0.window_awake)
        ∷ ("ui_final_keyguard_showing", show_bool x.0.keyguard_showing)
        ∷ ("ui_ready", "true")
        ∷ ("ui_readiness_result", "ready")
        ∷ []
unfolding conclude
conclude_lines (state, actions) ready = rw ready refl

finish_sound :
    (d : Screen) (initial s : UiState)
    → (with_initial d (ok initial)).1 ≡ ok s
    → (is_ready s ≡ true) × SaysReady (with_initial d (ok initial)).0
unfolding lookup
finish_sound d initial s h =
    let (woken, w, e₁, r₁) =
      and_then-eq-ok (wake_display d initial)
        (λ woken. and_then (dismiss_keyguard d woken) conclude) s h in
    let (x, _, e₂, r₂) = and_then-eq-ok (dismiss_keyguard d woken) conclude s r₁ in
    let (ready, same) = conclude_sound x s r₂ in
    let lines : (and_then (wake_display d initial)
          λ woken. and_then (dismiss_keyguard d woken) conclude).0
        ≡ (conclude x).0 =
      rw (e₁, wake_display_silent d initial woken w, e₂, dismiss_keyguard_silent d woken) refl in
    let said = conclude_lines x (rw same ready) in
    (ready, record { ready = rw (lines, said) refl; result = rw (lines, said) refl })

wake_display_idle :
    (d : Screen) (s : UiState) → is_ready s ≡ true → wake_display d s ≡ ([], ok (s, []))
unfolding wake_display is_ready
wake_display_idle d s h = ground arith

dismiss_keyguard_idle :
    (d : Screen) (s : UiState) → is_ready s ≡ true → dismiss_keyguard d (s, []) ≡ ([], ok (s, []))
unfolding dismiss_keyguard is_ready
dismiss_keyguard_idle d s h = ground arith

-- A screen that is ready is left alone.
idle : (d : Screen) (s : UiState) → is_ready s ≡ true → (with_initial d (ok s)).1 ≡ ok s
unfolding conclude
idle d s h = rw (wake_display_idle d s h) (rw (dismiss_keyguard_idle d s h) (rw h refl))

returned_ready :
    (d : Screen) (r : Result UiState) (s : UiState)
    → (with_initial d r).1 ≡ ok s
    → (is_ready s ≡ true) × SaysReady (with_initial d r).0
returned_ready d (ok initial) s h = finish_sound d initial s h
returned_ready d (err e) s h = cc

-- If the check returns, the state it returns is ready, and the first lines of the report for ui_ready
-- and ui_readiness_result say so. And if the screen is ready at the first look, the check returns
-- that state, whatever the two commands would have done.
pub ensure_device_ui_ready_lem :
    (d : Screen) (s : UiState)
    → ((ensure_device_ui_ready d).1 ≡ ok s
        → (is_ready s ≡ true) × SaysReady (ensure_device_ui_ready d).0)
      × (d.initial ≡ ok s → is_ready s ≡ true → (ensure_device_ui_ready d).1 ≡ ok s)
unfolding ensure_device_ui_ready
ensure_device_ui_ready_lem d s = (
  returned_ready d d.initial s,
  λ e h. subst (λ r. (with_initial d r).1 ≡ ok s) (sym e) (idle d s h),
)
