-- ===== src/RebootIntent/Store/Written.antt =====
-- A completed `write_intent` of tools/automation/reboot_intent.py, file by file.
use zygveil.Base.{
  String, ◌≡◌, refl, ◌∙◌, false, ◌==◌, Option, none, some, List, [], ◌∷◌, ◌++◌, Dict, lookup,
  lookup-insert, join, eq_iff, eq_refl, arith, if◌then◌else◌,
}
use zygveil.SafeRead.{private_mode}
use zygveil.RebootIntent.Disk.{Node, Disk, replace, update_file}
use zygveil.RebootIntent.Store.{
  Fresh, Call, make_temporary, write, new_file, effect, run, write_calls, writes,
}
use zygveil.RebootIntent.Store.Effects.{lookup-without, lookup-update_file, lookup-replace}
use zygveil.RebootIntent.Store.Crash.{
  all_text, finish, written, written_temporary, started, started_temporary,
}

-- The files once the new one stands under the name of the intent.
abbrev found_after : String → String → Node → Dict Node → String → Option Node
found_after temporary path n files j =
    if path == j then some n else if temporary == j then none else lookup j files

module _ (t : Fresh) (path : String) (apart : (t.name == path) ≡ false) (j : String) where
  lookup-finish :
      (n : Node) (d : Disk)
      → lookup t.name d.files ≡ some n
      → n.perm ≡ private_mode
      → lookup j (run t path finish d).files ≡ found_after t.name path n d.files j
  unfolding run effect
  lookup-finish n d h p = ground (
    arith,
    lookup-without t.name j
        (update_file path (λ m. record m { perm = private_mode }) (replace t.name path d)).files,
    lookup-update_file path j (λ m. record m { perm = private_mode }) (replace t.name path d),
    lookup-replace t.name path path n d h,
    lookup-replace t.name path j n d h,
    eq_refl path,
    eq_iff path j,
    eq_iff t.name j,
    eq_iff t.name path,
  )

  -- What is done to the temporary file does not show afterwards.
  after_write :
      (s : String) (m : Node) (d : Disk)
      → found_after t.name path m (effect t path (write s) d).files j
        ≡ found_after t.name path m d.files j
  unfolding effect
  after_write s m d =
      ground (arith, lookup-update_file t.name j (λ n. record n { content = join n.content s }) d)

  after-started :
      (m : Node) (d : Disk)
      → found_after t.name path m (started t path apart d).files j
        ≡ found_after t.name path m d.files j
  unfolding effect
  after-started m d = ground (
    arith,
    lookup-update_file t.name j (λ n. record n { perm = private_mode })
        (effect t path make_temporary d),
    lookup-insert t.name j (new_file t d.getuid) d.files,
  )

  lookup-writes :
      (portions : List String) (n : Node) (d : Disk)
      → lookup t.name d.files ≡ some n
      → n.perm ≡ private_mode
      → lookup j (run t path (writes portions ++ finish) d).files
        ≡ found_after t.name path (record n { content = all_text n.content portions }) d.files j
  unfolding run
  lookup-writes [] n d h p = lookup-finish n d h p
  lookup-writes (s ∷ rest) n d h p =
      lookup-writes rest (record n { content = join n.content s }) (effect t path (write s) d)
        (written_temporary t path apart s n d h) p
      ∙ after_write s (record n { content = all_text (join n.content s) rest }) d

  pub lookup-write_calls :
      (portions : List String) (d : Disk)
      → lookup j (run t path (write_calls portions) d).files
        ≡ found_after t.name path (written t d.getuid portions) d.files j
  unfolding run
  lookup-write_calls portions d =
      lookup-writes portions (new_file t d.getuid) (started t path apart d)
        (started_temporary t path apart d) refl
      ∙ after-started (written t d.getuid portions) d

-- The calls leave the directory itself alone.
effect-folder :
    (t : Fresh) (path : String) (c : Call) (d : Disk)
    → ((effect t path c d).folder ≡ d.folder) × ((effect t path c d).getuid ≡ d.getuid)
unfolding effect
effect-folder t path (write s) d = ground arith
effect-folder t path _ d = ground arith

pub run-folder :
    (t : Fresh) (path : String) (cs : List Call) (d : Disk)
    → ((run t path cs d).folder ≡ d.folder) × ((run t path cs d).getuid ≡ d.getuid)
unfolding run
run-folder t path [] d = (refl, refl)
run-folder t path (c ∷ cs) d =
    let (f, u) = effect-folder t path c d in
    let (g, v) = run-folder t path cs (effect t path c d) in (g ∙ f, v ∙ u)
