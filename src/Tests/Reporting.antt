-- ===== src/Tests/Reporting.antt =====
-- The theorems about reports and deferred texts at a concrete report and directory.
use zygveil.Base.{
  String, ◌≡◌, ◌≢◌, ◌↔◌, refl, Bool, false, none, some, List, [], ◌∷◌, ◌++◌, any, all_chars, join,
  is_line_end, splitlines, starts_with, ok, err, eq_iff,
}
use zygveil.SafeRead.{directory}
use zygveil.RebootIntent.Store.{Fresh}
use zygveil.Reporting.Deferred.{Deferred, stage}
use zygveil.Reporting.Deferred.Publication.{IsDeferred, stage_then_commit}
use zygveil.Reporting.Report.{
  Places, Report, redact_local_paths, normalized, kv, assert_redacted, leave,
}
use zygveil.Reporting.Report.Lines.{IsOneLine, IsPlain, IsLined, kv-splitlines}
use zygveil.Reporting.Report.Unsafe.{assert_redacted_iff, assert_redacted_unsafe}

abbrev writer : Deferred
writer = record {
  disk = record {
    folder = some (record { kind = directory; perm = 0o700; uid = 1000 });
    files = [];
    getuid = 1000;
  };
  pending = none;
}

abbrev temporary : Fresh
temporary = record { name = ".phase.json.x1.pending"; dev = 1; ino = 7; mtime_ns = 5 }

distinct : temporary.name ≢ "phase.json"
distinct p = cc ((eq_iff temporary.name "phase.json").1 p)

stage_then_commit_example :
    (s' : Deferred) × (stage temporary "phase.json" "first\n" writer ≡ ok s')
    × IsDeferred temporary "phase.json" "first\n" writer s'
stage_then_commit_example = stage_then_commit temporary "phase.json" "first\n" writer refl distinct

abbrev places : Places
places = record { cwd = "/home/user/zygveil"; home = "/home/user" }

abbrev report : Report
report = record {
  name = "probe";
  started = "2026-01-01T00:00:00Z";
  content = "55.5";
  published = none;
}

abbrev key : String
key = "path"

key-IsOneLine : IsOneLine key
unfolding all_chars is_line_end
key-IsOneLine = refl

value-IsPlain : IsPlain "/home/user/zygveil/a\nb"
unfolding all_chars is_line_end
value-IsPlain = refl

abbrev started : Report
started = record report { content = "[probe]\n" }

started-IsLined : IsLined started.content
unfolding all_chars is_line_end join
started-IsLined = record { lines = "[probe]" ∷ []; inline = (refl, tt); whole = refl }

kv-splitlines_example :
    IsLined (kv places key "/home/user/zygveil/a\nb" started).content
    × (splitlines (kv places key "/home/user/zygveil/a\nb" started).content
        ≡ splitlines started.content
          ++ (redact_local_paths places (join key (join "=" (normalized "/home/user/zygveil/a\nb")))
              ∷ []))
kv-splitlines_example =
    kv-splitlines places key "/home/user/zygveil/a\nb" started key-IsOneLine value-IsPlain
      started-IsLined

redacted : (kv places key "/home/user/zygveil/a\nb" report).content ≡ "55.5path=<checkout>/a\\nb\n"
unfolding kv
redacted = refl

abbrev patterns : List (String → Bool)
patterns = starts_with "55" ∷ []

assert_redacted_iff_example :
    (assert_redacted places patterns [] report).0 ≡ ok tt
    ↔ (any (λ test. test "55.5") patterns ≡ false)
      × (any {A = String → Bool} (λ test. test "55.5") [] ≡ false)
assert_redacted_iff_example = assert_redacted_iff places patterns [] report

unsafe_found :
    (assert_redacted places patterns [] report).0 ≡ err "report redaction check failed: pattern_0"
unfolding assert_redacted starts_with
unsafe_found = refl

unsafe_found_too :
    (assert_redacted places patterns [] (record report { content = "55.6" })).0
    ≡ err "report redaction check failed: pattern_0"
unfolding assert_redacted starts_with
unsafe_found_too = refl

assert_redacted_unsafe_example :
    (leave places "now"
      (assert_redacted places patterns [] report).0
      (assert_redacted places patterns [] report).1).published
    ≡ (leave places "now"
        (assert_redacted places patterns [] (record report { content = "55.6" })).0
        (assert_redacted places patterns [] (record report { content = "55.6" })).1).published
assert_redacted_unsafe_example =
    assert_redacted_unsafe places patterns [] report "55.6" "now"
      "report redaction check failed: pattern_0" unsafe_found unsafe_found_too
