-- ===== src/Adb/Process/Identity.antt =====
-- What `system_server_process_identity` of tools/automation/adb.py has seen when it returns.
use zygveil.Base.{
  ℕ, String, ◌≡◌, refl, subst, ◌↔◌, true, false, not, ◌==◌, some, [], ◌∷◌, eqb, isdigit, join,
  strip, words, all_chars, after_last-join, drop_char, ok, >>=-eq-ok, reject->>-eq-ok, ok-injective,
  not-eq-false, eq_iff, eq_refl,
}
use zygveil.Adb.Process.{
  Shell, read_pid, field_at, stat_fields, read_start_ticks, system_server_process_identity,
}

-- The four readings of the inspection, two of each kind, agree.
pub record HasIdentity (shell : Shell) (pid ticks : String) : Type 0 where
  pub first_pid : read_pid shell 0 ≡ ok pid
  pub first_ticks : read_start_ticks shell 1 pid ≡ ok ticks
  pub second_pid : read_pid shell 2 ≡ ok pid
  pub second_ticks : read_start_ticks shell 3 pid ≡ ok ticks

same_text : (a b : String) → not (a == b) ≡ false → a ≡ b
same_text a b h = (eq_iff a b).0 (not-eq-false _ h)

identity_sound :
    (shell : Shell) (pid ticks : String)
    → system_server_process_identity shell ≡ ok (pid, ticks)
    → HasIdentity shell pid ticks
unfolding system_server_process_identity
identity_sound shell pid ticks h =
    let (p, e₁, r₁) = >>=-eq-ok (read_pid shell 0) _ h in
    let (t, e₂, r₂) = >>=-eq-ok (read_start_ticks shell 1 p) _ r₁ in
    let (p', e₃, r₃) = >>=-eq-ok (read_pid shell 2) _ r₂ in
    let (same_pid, r₄) = reject->>-eq-ok (not (p' == p)) _ _ r₃ in
    let (t', e₄, r₅) = >>=-eq-ok (read_start_ticks shell 3 p) _ r₄ in
    let (same_ticks, r₆) = reject->>-eq-ok (not (t' == t)) _ (ok (p, t)) r₅ in
    let again : HasIdentity shell p t = record {
      first_pid = e₁;
      first_ticks = e₂;
      second_pid = subst (λ x. read_pid shell 2 ≡ ok x) (same_text p' p same_pid) e₃;
      second_ticks = subst (λ x. read_start_ticks shell 3 p ≡ ok x) (same_text t' t same_ticks) e₄;
    } in
    let whole : (p, t) ≡ (pid, ticks) = ok-injective r₆ in
    subst (λ (x : String × String). HasIdentity shell x.0 x.1) whole again

identity_complete :
    (shell : Shell) (pid ticks : String)
    → HasIdentity shell pid ticks
    → system_server_process_identity shell ≡ ok (pid, ticks)
unfolding system_server_process_identity
identity_complete shell pid ticks h =
    rw (h.first_pid, h.first_ticks, h.second_pid, eq_refl pid, h.second_ticks, eq_refl ticks) refl

-- The inspection returns a process id and a start time exactly when `pidof` names that id before and
-- after, and the process of that id has that start time before and after.
pub system_server_process_identity_iff :
    (shell : Shell) (pid ticks : String)
    → system_server_process_identity shell ≡ ok (pid, ticks) ↔ HasIdentity shell pid ticks
system_server_process_identity_iff shell pid ticks =
    (identity_sound shell pid ticks, identity_complete shell pid ticks)

stat_fields-join :
    (head rest : String)
    → all_chars (λ c. not (eqb c b')')) rest ≡ true
    → stat_fields (join head (join ") " rest)) ≡ words rest
unfolding stat_fields join drop_char all_chars
stat_fields-join head rest h = rw (after_last-join ")" head (join " " rest) h) refl

-- The start time is the twentieth field behind the command of a stat line, whatever the command is:
-- spaces and parentheses in it do not move the fields. What follows the command has no `)`.
pub read_start_ticks-stat :
    (shell : Shell) (n : ℕ) (pid head rest ticks : String)
    → (shell n ("cat" ∷ join "/proc/" (join pid "/stat") ∷ [])).returncode ≡ 0
    → strip (shell n ("cat" ∷ join "/proc/" (join pid "/stat") ∷ [])).stdout
      ≡ join head (join ") " rest)
    → all_chars (λ c. not (eqb c b')')) rest ≡ true
    → field_at 19 (words rest) ≡ some ticks
    → isdigit ticks ≡ true
    → read_start_ticks shell n pid ≡ ok ticks
unfolding read_start_ticks
read_start_ticks-stat shell n pid head rest ticks code text behind field digits =
    rw (text, code) (rw (stat_fields-join head rest behind) (rw (field, digits) refl))
