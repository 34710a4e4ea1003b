-- ===== src/RebootIntent/Store/Crash.antt =====
-- An interrupted `write_intent` of tools/automation/reboot_intent.py.
use zygveil.Base.{
  ℕ, zero, suc, subst, String, ◌≡◌, ◌≢◌, refl, ◌∙◌, ◌⊎◌, inl, inr, false, ◌==◌, Option, some, List,
  [], ◌∷◌, ◌++◌, take, lookup, insert, lookup-insert, join, eq_iff, eq_refl, arith,
}
use zygveil.SafeRead.{private_mode}
use zygveil.RebootIntent.Disk.{Node, Disk, replace}
use zygveil.RebootIntent.Store.{
  Fresh, Call, make_temporary, secure_temporary, sync_temporary, publish, secure, sync_folder,
  remove_temporary, write, new_file, effect, run, write_calls, writes,
}
use zygveil.RebootIntent.Store.Effects.{lookup-without, lookup-update_file, lookup-replace}

-- The portions one behind the other, after what is there.
abbrev pub all_text : String → List String → String
all_text acc [] = acc
all_text acc (s ∷ rest) = all_text (join acc s) rest

abbrev pub finish : List Call
finish = sync_temporary ∷ publish ∷ secure ∷ sync_folder ∷ remove_temporary ∷ []

-- The file that a completed write leaves.
abbrev pub written : Fresh → ℕ → List String → Node
written t getuid portions = record (new_file t getuid) { content = all_text "" portions }

-- A file of the old state, or the new file whole.
abbrev Outcome : String → Option Node → Node → Disk → Type 0
Outcome path old new d = (lookup path d.files ≡ old) ⊎ (lookup path d.files ≡ some new)

module _ (t : Fresh) (path : String) (apart : (t.name == path) ≡ false) where
  published :
      (n : Node) (d : Disk)
      → lookup t.name d.files ≡ some n
      → lookup path (replace t.name path d).files ≡ some n
  published n d h = lookup-replace t.name path path n d h ∙ rw eq_refl

  secured :
      (n : Node) (d : Disk)
      → lookup path d.files ≡ some n
      → n.perm ≡ private_mode
      → lookup path (effect t path secure d).files ≡ some n
  unfolding effect
  secured n d h p =
      lookup-update_file path path (λ m. record m { perm = private_mode }) d
      ∙ rw (eq_refl, h) (ground arith)

  removed : (d : Disk) → lookup path (effect t path remove_temporary d).files ≡ lookup path d.files
  unfolding effect
  removed d = lookup-without t.name path d.files ∙ rw apart

  crash_finish :
      (k : ℕ) (n : Node) (d : Disk)
      → lookup t.name d.files ≡ some n
      → n.perm ≡ private_mode
      → Outcome path (lookup path d.files) n (run t path (take k finish) d)
  unfolding run
  crash_finish zero n d h p = inl refl
  crash_finish (suc zero) n d h p = inl refl
  crash_finish (suc (suc zero)) n d h p = inr (published n d h)
  crash_finish (suc (suc (suc zero))) n d h p =
      inr (secured n (replace t.name path d) (published n d h) p)
  crash_finish (suc (suc (suc (suc zero)))) n d h p =
      inr (secured n (replace t.name path d) (published n d h) p)
  crash_finish (suc (suc (suc (suc (suc zero))))) n d h p = inr (
      removed (effect t path secure (replace t.name path d))
      ∙ secured n (replace t.name path d) (published n d h) p)
  crash_finish (suc (suc (suc (suc (suc (suc k)))))) n d h p = inr (
      removed (effect t path secure (replace t.name path d))
      ∙ secured n (replace t.name path d) (published n d h) p)

  -- A write changes the temporary file alone.
  pub written_temporary :
      (s : String) (n : Node) (d : Disk)
      → lookup t.name d.files ≡ some n
      → lookup t.name (effect t path (write s) d).files
        ≡ some (record n { content = join n.content s })
  unfolding effect
  written_temporary s n d h =
      lookup-update_file t.name t.name (λ m. record m { content = join m.content s }) d
      ∙ rw (eq_refl, h)

  write_elsewhere :
      (s : String) (d : Disk) → lookup path (effect t path (write s) d).files ≡ lookup path d.files
  unfolding effect
  write_elsewhere s d =
      lookup-update_file t.name path (λ m. record m { content = join m.content s }) d ∙ rw apart

  crash_writes :
      (k : ℕ) (portions : List String) (n : Node) (d : Disk)
      → lookup t.name d.files ≡ some n
      → n.perm ≡ private_mode
      → Outcome path
          (lookup path d.files)
          (record n { content = all_text n.content portions })
          (run t path (take k (writes portions ++ finish)) d)
  unfolding run
  crash_writes k [] n d h p = crash_finish k n d h p
  crash_writes zero (s ∷ rest) n d h p = inl refl
  crash_writes (suc k) (s ∷ rest) n d h p =
      subst
        (λ old.
          Outcome path old (record n { content = all_text (join n.content s) rest })
            (run t path (take k (writes rest ++ finish)) (effect t path (write s) d)))
        (write_elsewhere s d)
        (crash_writes k rest (record n { content = join n.content s }) (effect t path (write s) d)
          (written_temporary s n d h) p)

  -- After the first two calls the temporary file is there, empty and private, and nothing else
  -- has changed.
  abbrev pub started : Disk → Disk
  started d = effect t path secure_temporary (effect t path make_temporary d)

  pub started_temporary : (d : Disk) → lookup t.name (started d).files ≡ some (new_file t d.getuid)
  unfolding effect
  started_temporary d =
      lookup-update_file t.name t.name (λ m. record m { perm = private_mode })
        (record d { files = insert t.name (new_file t d.getuid) d.files })
      ∙ rw (eq_refl, lookup-insert t.name t.name (new_file t d.getuid) d.files, eq_refl)

  make_elsewhere :
      (d : Disk) → lookup path (effect t path make_temporary d).files ≡ lookup path d.files
  unfolding effect
  make_elsewhere d = lookup-insert t.name path (new_file t d.getuid) d.files ∙ rw apart

  started_elsewhere : (d : Disk) → lookup path (started d).files ≡ lookup path d.files
  unfolding effect
  started_elsewhere d =
      lookup-update_file t.name path (λ m. record m { perm = private_mode })
        (effect t path make_temporary d)
      ∙ rw apart (make_elsewhere d)

  crash_calls :
      (k : ℕ) (portions : List String) (d : Disk)
      → Outcome path
          (lookup path d.files)
          (written t d.getuid portions)
          (run t path (take k (write_calls portions)) d)
  unfolding run
  crash_calls zero portions d = inl refl
  crash_calls (suc zero) portions d = inl (make_elsewhere d)
  crash_calls (suc (suc k)) portions d =
      subst
        (λ old.
          Outcome path old (written t d.getuid portions)
            (run t path (take k (writes portions ++ finish)) (started d)))
        (started_elsewhere d)
        (crash_writes k portions (new_file t d.getuid) (started d) (started_temporary d) refl)

-- However many of its calls a write has made when it is interrupted, and in whatever portions it
-- hands over the text: the file of the intent is the one that was there before (or still missing),
-- or the new one with the whole text, mode 0600, the caller as owner and one name. The name of the
-- temporary file is not that of the intent.
pub write_calls_atomic :
    (t : Fresh) (path : String) (portions : List String) (d : Disk) (k : ℕ)
    → t.name ≢ path
    → (lookup path (run t path (take k (write_calls portions)) d).files ≡ lookup path d.files)
      ⊎ (lookup path (run t path (take k (write_calls portions)) d).files
          ≡ some (written t d.getuid portions))
write_calls_atomic t path portions d k apart =
    crash_calls t path (ground (arith, eq_iff t.name path)) k portions d
