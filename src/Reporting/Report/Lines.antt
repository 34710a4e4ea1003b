-- ===== src/Reporting/Report/Lines.antt =====
-- What `Report.kv` of tools/automation/reporting.py adds to the lines of a report, as `str.splitlines`
-- reads them in `report_values` of tools/automation/location_device.py.
use Prim.Native.Char.{code}
use zygveil.Base.{
  ℕ, String, ◌≡◌, refl, sym, ap, ◌∙◌, Bool, true, not, ◌||◌, List, [], ◌∷◌, ◌++◌, all, All,
  all_chars, all_chars-join, all_chars-replace_text, all_chars-replace_char, all_chars-without_char,
  without_char, replace_text, join, is_inline, is_line_end, splitlines, splitlines-join, eqb,
  &&-left, &&-right, arith,
}
use zygveil.Json.Members.{join_assoc}
use zygveil.Reporting.Report.{
  Places, Report, present, candidates, redact_all, redact_local_paths, line, normalized, kv,
}

abbrev pub IsOneLine : String → Type 0
IsOneLine s = is_inline s ≡ true

-- A letter that ends a line only as the line feed or the carriage return do.
abbrev is_plain_letter : ℕ → Bool
is_plain_letter c = not (is_line_end c) || eqb c b'\n' || eqb c b'\r'

abbrev pub IsPlain : String → Type 0
IsPlain s = all_chars is_plain_letter s ≡ true

-- A text of whole lines.
abbrev unlines : List String → String
unlines [] = ""
unlines (s ∷ ss) = join s (join "\n" (unlines ss))

pub record IsLined (s : String) : Type 0 where
  pub lines : List String
  pub inline : All IsOneLine lines
  pub whole : s ≡ unlines lines

splitlines-unlines : (ss : List String) → All IsOneLine ss → splitlines (unlines ss) ≡ ss
unfolding splitlines
splitlines-unlines [] h = refl
splitlines-unlines (s ∷ ss) (one, h) =
    splitlines-join s (unlines ss) one ∙ ap (λ x. s ∷ x) (splitlines-unlines ss h)

unlines-append :
    (ss : List String) (s : String) → join (unlines ss) (join s "\n") ≡ unlines (ss ++ (s ∷ []))
unfolding join
unlines-append [] s = refl
unlines-append (x ∷ ss) s =
    join_assoc x (join "\n" (unlines ss)) (join s "\n")
    ∙ ap (λ r. join x r)
        (join_assoc "\n" (unlines ss) (join s "\n") ∙ ap (join "\n") (unlines-append ss s))

All-append_one :
    (ss : List String) (s : String)
    → All IsOneLine ss
    → IsOneLine s
    → All IsOneLine (ss ++ (s ∷ []))
All-append_one [] s h one = (one, tt)
All-append_one (x ∷ ss) s (first, h) one = (first, All-append_one ss s h one)

-- The labels of a list of replacements are one line each.
abbrev labelled : List (String × String) → Bool
labelled list = all (λ x. is_inline x.1) list

redact_all-IsOneLine :
    (list : List (String × String)) (s : String)
    → labelled list ≡ true
    → IsOneLine s
    → IsOneLine (redact_all list s)
unfolding redact_all
redact_all-IsOneLine [] s h one = one
redact_all-IsOneLine ((path, label) ∷ more) s h one =
    redact_all-IsOneLine more (replace_text path label s) (&&-right (is_inline label) _ h)
      (all_chars-replace_text (λ c. not (is_line_end c)) path label s (&&-left _ _ h) one)

present-labelled :
    (text label : String) (rest : List (String × String))
    → IsOneLine label
    → labelled rest ≡ true
    → labelled (present text label rest) ≡ true
present-labelled text label rest one h = ground arith

candidates-labelled : (p : Places) → labelled (candidates p) ≡ true
unfolding candidates all_chars is_line_end
candidates-labelled p = ground (
  arith,
  present-labelled p.home "<home>" [] refl refl,
  present-labelled p.cwd "<checkout>" [] refl refl,
  present-labelled p.home "<home>" (present p.cwd "<checkout>" []) refl
      (present-labelled p.cwd "<checkout>" [] refl refl),
  present-labelled p.cwd "<checkout>" (present p.home "<home>" []) refl
      (present-labelled p.home "<home>" [] refl refl),
)

redact-IsOneLine : (p : Places) (s : String) → IsOneLine s → IsOneLine (redact_local_paths p s)
unfolding redact_local_paths
redact-IsOneLine p s one = redact_all-IsOneLine (candidates p) s (candidates-labelled p) one

-- What holds of every letter for two reasons.
all_chars_both :
    (p q r : ℕ → Bool) (s : String)
    → ((c : ℕ) → p c ≡ true → q c ≡ true → r c ≡ true)
    → all_chars p s ≡ true
    → all_chars q s ≡ true
    → all_chars r s ≡ true
unfolding all_chars
all_chars_both p q r String.[] both h k = refl
all_chars_both p q r (String.◌∷◌ c s) both h k =
    rw
      (
        both (code c) (&&-left _ _ h) (&&-left _ _ k),
        all_chars_both p q r s both (&&-right (p (code c)) _ h) (&&-right (q (code c)) _ k),
      )
      refl

without_char-all_chars :
    (test : ℕ → Bool) (c : ℕ) (s : String)
    → all_chars test s ≡ true
    → all_chars test (without_char c s) ≡ true
unfolding all_chars without_char
without_char-all_chars test c String.[] h = refl
without_char-all_chars test c (String.◌∷◌ x s) h =
    ground (arith, without_char-all_chars test c s (&&-right (test (code x)) _ h))

-- Neither a line end of another kind nor a carriage return.
abbrev is_feed_letter : ℕ → Bool
is_feed_letter c = not (is_line_end c) || eqb c b'\n'

normalized-IsOneLine : (value : String) → IsPlain value → IsOneLine (normalized value)
unfolding normalized all_chars is_line_end
normalized-IsOneLine value plain =
    let kept =
      all_chars_both is_plain_letter (λ c. not (eqb c b'\r')) is_feed_letter
        (without_char b'\r' value) (λ c h k. ground arith)
        (without_char-all_chars is_plain_letter b'\r' value plain)
        (all_chars-without_char b'\r' value) in
    all_chars_both is_feed_letter (λ c. not (eqb c b'\n')) (λ c. not (is_line_end c))
      (normalized value) (λ c h k. ground arith)
      (all_chars-replace_text is_feed_letter "\n" "\\n" (without_char b'\r' value) refl kept)
      (all_chars-replace_char "\n" "\\n" (without_char b'\r' value) refl)

entry-IsOneLine :
    (key value : String)
    → IsOneLine key
    → IsPlain value
    → IsOneLine (join key (join "=" (normalized value)))
unfolding all_chars is_line_end
entry-IsOneLine key value one plain =
    all_chars-join (λ c. not (is_line_end c)) key (join "=" (normalized value)) one
      (all_chars-join (λ c. not (is_line_end c)) "=" (normalized value) refl
        (normalized-IsOneLine value plain))

-- An entry whose key is one line, and whose value has no line end but line feeds and carriage
-- returns, adds to a report of whole lines exactly one line as `str.splitlines` reads it, which is
-- key=value, normalized and redacted, and leaves it a report of whole lines. Of the other line ends of
-- `str.splitlines` nothing is said: `kv` leaves them in.
pub kv-splitlines :
    (p : Places) (key value : String) (r : Report)
    → IsOneLine key
    → IsPlain value
    → IsLined r.content
    → IsLined (kv p key value r).content
      × (splitlines (kv p key value r).content
          ≡ splitlines r.content
            ++ (redact_local_paths p (join key (join "=" (normalized value))) ∷ []))
unfolding kv line
kv-splitlines p key value r one plain lined =
    let text = redact_local_paths p (join key (join "=" (normalized value))) in
    let entry : IsOneLine text =
      redact-IsOneLine p (join key (join "=" (normalized value)))
        (entry-IsOneLine key value one plain) in
    let whole : join r.content (join text "\n") ≡ unlines (lined.lines ++ (text ∷ [])) =
      ap (λ x. join x (join text "\n")) lined.whole ∙ unlines-append lined.lines text in
    let inline = All-append_one lined.lines text lined.inline entry in
    (
      record { lines = lined.lines ++ (text ∷ []); inline = inline; whole = whole },
      ap splitlines whole
          ∙ splitlines-unlines (lined.lines ++ (text ∷ [])) inline
          ∙ ap (λ x. x ++ (text ∷ []))
              (sym (ap splitlines lined.whole ∙ splitlines-unlines lined.lines lined.inline)),
    )
