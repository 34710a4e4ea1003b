-- ===== src/Reporting/Report/Unsafe.antt =====
-- What `Report.assert_redacted` of tools/automation/reporting.py lets through.
use zygveil.Base.{
  ℕ, suc, String, ◌≡◌, refl, sym, ap, ◌∙◌, ◌↔◌, Bool, false, Option, none, some, List, [], ◌∷◌, any,
  join, drop_char, Result, ok, err, arith,
}
use zygveil.Reporting.Report.{
  Places, Report, first_match, failure_class, discarded, judge_matches, assert_redacted, leave,
}

first_match-none :
    (i : ℕ) (tests : List (String → Bool)) (content : String)
    → first_match i tests content ≡ none ↔ any (λ test. test content) tests ≡ false
first_match-none i [] content = (λ h. refl, λ h. refl)
first_match-none i (test ∷ tests) content = ground (arith, first_match-none (suc i) tests content)

judge_matches-ok :
    (p : Places) (a b : Option ℕ) (r : Report)
    → (judge_matches p a b r).0 ≡ ok tt ↔ (a ≡ none) × (b ≡ none)
judge_matches-ok p none none r = (λ h. (refl, refl), λ h. refl)
judge_matches-ok p none (some b) r = (λ h. absurd (ground arith), λ h. absurd (ground arith))
judge_matches-ok p (some a) b r = (λ h. absurd (ground arith), λ h. absurd (ground arith))

-- The check passes exactly when no pattern and no predicate holds of the text so far.
pub assert_redacted_iff :
    (p : Places) (patterns predicates : List (String → Bool)) (r : Report)
    → (assert_redacted p patterns predicates r).0 ≡ ok tt
      ↔ (any (λ test. test r.content) patterns ≡ false)
        × (any (λ test. test r.content) predicates ≡ false)
unfolding assert_redacted
assert_redacted_iff p patterns predicates r = ground (
  arith,
  judge_matches-ok p (first_match 0 patterns r.content) (first_match 0 predicates r.content) r,
  first_match-none 0 patterns r.content,
  first_match-none 0 predicates r.content,
)

join-cancel : (s a b : String) → join s a ≡ join s b → a ≡ b
unfolding join drop_char
join-cancel String.[] a b h = h
join-cancel (String.◌∷◌ c s) a b h = join-cancel s a b (ap drop_char h)

abbrev message_of : Result (Unit {0}) → String
message_of (ok _) = ""
message_of (err e) = e

judge_matches-err :
    (p : Places) (a b : Option ℕ) (r : Report) (e : String)
    → (judge_matches p a b r).0 ≡ err e
    → (e ≡ join "report redaction check failed: " (failure_class a b))
      × ((judge_matches p a b r).1 ≡ discarded p (failure_class a b) r)
judge_matches-err p none none r e h = absurd (ground arith)
judge_matches-err p none (some b) r e h = (sym (ap message_of h), refl)
judge_matches-err p (some a) b r e h = (sym (ap message_of h), refl)

-- A report that fails the check is published without its text: had there been any other text before
-- the check that failed with the same message, the same would have been published.
pub assert_redacted_unsafe :
    (p : Places) (patterns predicates : List (String → Bool)) (r : Report)
    (other finished e : String)
    → (assert_redacted p patterns predicates r).0 ≡ err e
    → (assert_redacted p patterns predicates (record r { content = other })).0 ≡ err e
    → (leave p finished
        (assert_redacted p patterns predicates r).0
        (assert_redacted p patterns predicates r).1).published
      ≡ (leave p finished
          (assert_redacted p patterns predicates (record r { content = other })).0
          (assert_redacted p patterns predicates (record r { content = other })).1).published
unfolding assert_redacted
assert_redacted_unsafe p patterns predicates r other finished e h k =
    let a = first_match 0 patterns r.content in
    let b = first_match 0 predicates r.content in
    let a' = first_match 0 patterns other in
    let b' = first_match 0 predicates other in
    let (message, kept) = judge_matches-err p a b r e h in
    let (message', kept') = judge_matches-err p a' b' (record r { content = other }) e k in
    let same : failure_class a b ≡ failure_class a' b' =
      join-cancel "report redaction check failed: " (failure_class a b) (failure_class a' b')
        (sym message ∙ message') in
    rw (h, k) (rw (kept, kept') (rw same refl))
