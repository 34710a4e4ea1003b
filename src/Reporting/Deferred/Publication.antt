-- ===== src/Reporting/Deferred/Publication.antt =====
-- When a staged text of tools/automation/reporting.py is seen under its name.
use zygveil.Base.{
  String, ◌≡◌, ◌≢◌, refl, ◌==◌, Option, none, some, lookup, insert, lookup-insert, ok, err, eq_iff,
  eq_refl, if◌then◌else◌, arith,
}
use zygveil.RebootIntent.Disk.{Node, unlink}
use zygveil.RebootIntent.Store.{Fresh}
use zygveil.RebootIntent.Store.Effects.{lookup-replace, lookup-without}
use zygveil.Reporting.Deferred.{Deferred, staged_file, stage, commit, discard}

abbrev pub file : String → Deferred → Option Node
file j s = lookup j s.disk.files

-- What staging makes of a writer that has nothing pending.
abbrev pub staged : Fresh → String → String → Deferred → Deferred
staged t destination content s = record {
  disk = record s.disk { files = insert t.name (staged_file t content s) s.disk.files };
  pending = some (t.name, destination);
}

module _ (t : Fresh) (destination content : String) (s : Deferred)
    (apart : t.name ≢ destination) where
  file-staged :
      (j : String)
      → file j (staged t destination content s)
        ≡ (if t.name == j then some (staged_file t content s) else file j s)
  file-staged j = lookup-insert t.name j (staged_file t content s) s.disk.files

  temporary_there : file t.name (staged t destination content s) ≡ some (staged_file t content s)
  temporary_there = rw (file-staged t.name) (rw (eq_refl t.name) refl)

  file-commit :
      (j : String)
      → file j (commit (staged t destination content s)) ≡ (
          if destination == j
          then some (staged_file t content s)
          else if t.name == j
          then none
          else file j (staged t destination content s))
  unfolding commit
  file-commit j =
      lookup-replace t.name destination j (staged_file t content s)
        (staged t destination content s).disk temporary_there

  file-discard :
      (j : String)
      → file j (discard (staged t destination content s))
        ≡ (if t.name == j then none else file j (staged t destination content s))
  unfolding discard unlink
  file-discard j = lookup-without t.name j (staged t destination content s).disk.files

nothing_left :
    (t : Fresh) (destination content : String) (s : Deferred)
    → ((commit (staged t destination content s)).pending ≡ none)
      × ((discard (staged t destination content s)).pending ≡ none)
unfolding commit discard
nothing_left t destination content s = (refl, refl)

-- What the three operations promise together, of a text staged as `s'` over `s`.
pub record IsDeferred (t : Fresh) (destination content : String) (s s' : Deferred) : Type 0 where
  pub hidden : file destination s' ≡ file destination s
  pub published : file destination (commit s') ≡ some (staged_file t content s)
  pub cleaned : file t.name (commit s') ≡ none
  pub others : (j : String) → t.name ≢ j → destination ≢ j → file j (commit s') ≡ file j s
  pub withdrawn : (j : String) → t.name ≢ j → file j (discard s') ≡ file j s
  pub forgotten : file t.name (discard s') ≡ none
  pub free_again : ((commit s').pending ≡ none) × ((discard s').pending ≡ none)
  pub exclusive :
      (t' : Fresh) (destination' content' : String)
      → stage t' destination' content' s' ≡ err "a private evidence artifact is already pending"

-- A text staged while nothing is pending is not seen under its name until the commit, which puts it
-- there whole, in a private file, removes the temporary name and leaves every other file alone; a
-- discard instead leaves every file as before and removes the temporary one. Until one of the two, nothing else can
-- be staged, and afterwards nothing is pending. The temporary file has another name.
pub stage_then_commit :
    (t : Fresh) (destination content : String) (s : Deferred)
    → s.pending ≡ none
    → t.name ≢ destination
    → (s' : Deferred) × (stage t destination content s ≡ ok s')
      × IsDeferred t destination content s s'
unfolding stage
stage_then_commit t destination content s free apart = (
  staged t destination content s,
  rw free refl,
  record {
    hidden =
        ground
          (arith, file-staged t destination content s apart destination, eq_iff t.name destination);
    published =
        rw (file-commit t destination content s apart destination) (rw (eq_refl destination) refl);
    cleaned = ground (
      arith,
      file-commit t destination content s apart t.name,
      eq_iff destination t.name,
      eq_refl t.name,
    );
    others = λ j a b. ground (
      arith,
      file-commit t destination content s apart j,
      file-staged t destination content s apart j,
      eq_iff destination j,
      eq_iff t.name j,
    );
    withdrawn = λ j a. ground (
      arith,
      file-discard t destination content s apart j,
      file-staged t destination content s apart j,
      eq_iff t.name j,
    );
    forgotten = rw (file-discard t destination content s apart t.name) (rw (eq_refl t.name) refl);
    free_again = nothing_left t destination content s;
    exclusive = λ t' d' c'. refl;
  },
)
