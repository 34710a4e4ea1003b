-- ===== src/Reporting/Report.antt =====
-- `Report` and `redact_local_paths` of tools/automation/reporting.py: the text that goes into the
-- temporary file, and what is published under the report's name.
pub mod Lines
pub mod Unsafe
use zygveil.Base.{
  ℕ, suc, String, Bool, true, false, not, ◌||◌, ◌&&◌, ◌==◌, Option, none, some, List, [], ◌∷◌, join,
  count_chars, ltb, replace_text, without_char, Result, ok, err, if◌then◌else◌,
}
use zygveil.Json.Print.{show}

-- The current directory and the home directory, resolved and without a slash at the end.
pub record Places : Type 0 where
  pub cwd : String
  pub home : String

abbrev pub present : String → String → List (String × String) → List (String × String)
present text label rest = if text == "" then rest else (text, label) ∷ rest

-- The longer path first; one path with two labels keeps the second.
unfoldable pub candidates : Places → List (String × String)
unfolding count_chars
candidates p =
    if p.cwd == p.home
    then present p.home "<home>" []
    else if ltb (count_chars p.cwd) (count_chars p.home)
    then present p.home "<home>" (present p.cwd "<checkout>" [])
    else present p.cwd "<checkout>" (present p.home "<home>" [])

unfoldable pub redact_all : List (String × String) → String → String
unfolding replace_text
redact_all [] s = s
redact_all ((path, label) ∷ more) s = redact_all more (replace_text path label s)

unfoldable pub redact_local_paths : Places → String → String
unfolding candidates redact_all
redact_local_paths p s = redact_all (candidates p) s

-- `content` is the text of the temporary file, `published` that of the report's own.
pub record Report : Type 0 where
  pub name : String
  pub started : String
  pub content : String
  pub published : Option String

-- `str(value).replace("\r", "").replace("\n", "\\n")`
unfoldable pub normalized : String → String
unfolding without_char replace_text
normalized value = replace_text "\n" "\\n" (without_char b'\r' value)

-- The place of the first test that holds.
abbrev pub first_match : ℕ → List (String → Bool) → String → Option ℕ
first_match i [] content = none
first_match i (test ∷ tests) content =
    let rest = first_match (suc i) tests content in if test content then some i else rest

unfoldable pub failure_class : Option ℕ → Option ℕ → String
unfolding join show
failure_class (some i) predicate = join "pattern_" (show i)
failure_class none (some i) = join "predicate_" (show i)
failure_class none none = ""

abbrev pub exit_status : {A : Type 0} → Result A → String
exit_status (ok a) = "0"
exit_status (err e) = "1"

module _ (places : Places) where
  unfoldable pub line : String → Report → Report
  unfolding redact_local_paths join
  line value r = record r { content = join r.content (join (redact_local_paths places value) "\n") }

  unfoldable pub kv : String → String → Report → Report
  unfolding line normalized join
  kv key value r = line (join key (join "=" (normalized value))) r

  unfoldable pub section : String → Report → Report
  unfolding line join
  section value r = line (join "[" (join value "]")) (line "" r)

  abbrev pub begin_content : Report → Report
  begin_content r = kv "started_utc" r.started (kv "report" r.name (record r { content = "" }))

  -- `__enter__`
  unfoldable pub enter : Report → Report
  unfolding kv
  enter r = begin_content r

  abbrev pub discarded : String → Report → Report
  discarded class r =
      kv "redaction_failure_class" class
        (kv "redaction_check" "failed; unsafe candidate report discarded" (begin_content r))

  abbrev pub judge_matches : Option ℕ → Option ℕ → Report → Result (Unit {0}) × Report
  judge_matches none none r = (ok tt, kv "redaction_check" "pass" r)
  judge_matches pattern predicate r = (
    err (join "report redaction check failed: " (failure_class pattern predicate)),
    discarded (failure_class pattern predicate) r,
  )

  -- A pattern is the test that `re.search` makes of it.
  unfoldable pub assert_redacted :
      List (String → Bool) → List (String → Bool) → Report → Result (Unit {0}) × Report
  unfolding kv failure_class
  assert_redacted patterns predicates r =
      judge_matches (first_match 0 patterns r.content) (first_match 0 predicates r.content) r

  abbrev pub note_error : {A : Type 0} → Result A → Report → Report
  note_error (ok a) r = r
  note_error (err e) r = kv "error" (replace_text "\n" " " e) r

  -- `__exit__`, with what the body returned or raised and the time.
  unfoldable pub leave : {A : Type 0} → String → Result A → Report → Report
  unfolding kv line
  leave finished result r =
      let last =
        kv "exit_status" (exit_status result)
          (kv "finished_utc" finished (line "" (note_error result r))) in
      record last { published = some last.content }
