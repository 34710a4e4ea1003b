-- ===== src/RebootIntent/Store/Resume.antt =====
-- `begin_or_resume`, `load_intent` and `clear_intent` of tools/automation/reboot_intent.py together:
-- what was begun is found again, and nothing else is.
use zygveil.Base.{
  ℕ, String, ◌≡◌, ◌≢◌, refl, sym, ap, subst, Bool, true, false, ◌==◌, Option, none, some, List, [],
  ◌∷◌, Dict, keys, lookup, any, join, ok, >>=-eq-ok, Bool-cases, inl, inr, ok-injective, eq_iff,
  eq_refl, arith,
}
use zygveil.SafeRead.{regular, read_checked}
use zygveil.SafeRead.Exact.{Serves, IsPrivate, read_checked_complete}
use zygveil.Json.{Json}
use zygveil.RebootIntent.Document.{Request, Identity, is_intent, new_intent}
use zygveil.RebootIntent.Disk.{
  Node, Folder, Disk, fstat, create_directory, inspect_directory, reject_conflicting_intents,
  is_conflict, check_folder, secure_folder, reject_listed,
}
use zygveil.RebootIntent.Store.{
  Fresh, Observer, read_rule, canonical, run, write_calls, parse_intent, load_node, load_intent,
}
use zygveil.RebootIntent.Store.Effects.{any-keys_free, free-any-keys}
use zygveil.RebootIntent.Store.Crash.{written}
use zygveil.RebootIntent.Store.Written.{lookup-write_calls, run-folder}
use zygveil.RebootIntent.Store.RoundTrip.{
  sorted_intent, parse_intent-new_intent, count_chars-new_intent,
}
use zygveil.RebootIntent.Document.Texts.{valid_texts}

-- The system reads out the file as it is.
pub record IsFaithful (observe : Observer) : Type 0 where
  pub at :
      (n : Node)
      → (blocks : List String) × (observe n
          ≡ record { before = fstat n; blocks = blocks; after = fstat n })
        × Serves n.content blocks

-- There are files only inside the directory.
abbrev pub IsRooted : Disk → Type 0
IsRooted d = d.folder ≡ none → d.files ≡ []

check_folder-some :
    (getuid : ℕ) (f : Folder) (found : Bool)
    → check_folder getuid (some f) ≡ ok found
    → found ≡ true
unfolding check_folder
check_folder-some getuid f found h = ground arith

check_folder-none : (getuid : ℕ) (o : Option Folder) → check_folder getuid o ≡ ok false → o ≡ none
unfolding check_folder
check_folder-none getuid o h = ground arith

create_directory-found :
    (d ready : Disk)
    → create_directory d ≡ ok ready
    → (inspect_directory ready ≡ ok true) × (ready.files ≡ d.files) × (ready.getuid ≡ d.getuid)
unfolding create_directory inspect_directory
create_directory-found d ready h =
    let (f, _, r₁) = >>=-eq-ok (secure_folder d.getuid d.folder) _ h in
    let (found, c, r₂) = >>=-eq-ok (check_folder d.getuid (some f)) _ r₁ in
    let same : record d { folder = some f } ≡ ready = ok-injective r₂ in
    (
      subst (λ (x : Disk). check_folder x.getuid x.folder ≡ ok true) same
          (rw (check_folder-some d.getuid f found c) at c),
      ap (λ (x : Disk). x.files) (sym same),
      ap (λ (x : Disk). x.getuid) (sym same),
    )

pub no_conflict :
    (path : String) (d : Disk)
    → IsRooted d
    → reject_conflicting_intents path d ≡ ok tt
    → any (is_conflict path) (keys d.files) ≡ false
unfolding reject_conflicting_intents
no_conflict path d rooted h =
    let (found, e, r) = >>=-eq-ok (inspect_directory d) _ h in
    elim (Bool-cases found) [
      | inl present ↦ listed (rw present at r)
      | inr absent ↦
          rw
            (rooted
              (check_folder-none d.getuid d.folder (unfold inspect_directory in rw absent at e)))
            refl
    ]
  where
    listed :
        reject_listed true (any (is_conflict path) (keys d.files)) ≡ ok tt
        → any (is_conflict path) (keys d.files) ≡ false
    listed k = ground arith

-- A private file that the system reads out as it is, and whose text is an intent.
pub load_private :
    (observe : Observer)
    → IsFaithful observe
    → (r : Request) (getuid : ℕ) (n : Node) (values : Dict Json) → IsPrivate getuid 4096 (fstat n)
    → parse_intent r n.content ≡ ok values
    → load_node observe r getuid (some n) ≡ ok (some values)
unfolding fstat
load_private observe faithful r getuid n values private parsed =
    let (blocks, e, serves) = faithful.at n in
    let kind : n.kind ≡ regular = private.kind in
    let bytes : read_checked getuid read_rule (observe n) ≡ ok n.content =
      rw e
        (read_checked_complete getuid read_rule (fstat n) n.content blocks private refl serves) in
    rw bytes (rw parsed (rw kind))

pub differ : (a b : String) → a ≢ b → (a == b) ≡ false
differ a b h = ground (arith, eq_iff a b)

-- The intent file that is written, as the reader sees it.
module _ (observe : Observer) (faithful : IsFaithful observe) (t : Fresh) (r : Request)
    (i : Identity) (valid : is_intent (new_intent r i) r ≡ true) where
  fresh_node : ℕ → Node
  fresh_node getuid = written t getuid (canonical (new_intent r i) ∷ [])

  fresh_node_content : (getuid : ℕ) → (fresh_node getuid).content ≡ canonical (new_intent r i)
  unfolding fresh_node join
  fresh_node_content getuid = refl

  fresh_node-IsPrivate : (getuid : ℕ) → IsPrivate getuid 4096 (fstat (fresh_node getuid))
  unfolding fresh_node fstat join
  fresh_node-IsPrivate getuid =
      let (long, short) = count_chars-new_intent r i (valid_texts r i valid) in
      record {
        kind = refl;
        perm = refl;
        owner = refl;
        one_link = refl;
        nonempty = long;
        bounded = short;
      }

  load_fresh_node :
      (getuid : ℕ)
      → load_node observe r getuid (some (fresh_node getuid)) ≡ ok (some (sorted_intent r i))
  load_fresh_node getuid =
      load_private observe faithful r getuid (fresh_node getuid) (sorted_intent r i)
        (fresh_node-IsPrivate getuid)
        (rw (fresh_node_content getuid) (parse_intent-new_intent r i valid))

  -- The disk after the write.
  abbrev pub begun : String → Disk → Disk
  begun path ready = run t path (write_calls (canonical (new_intent r i) ∷ [])) ready

  begun_free :
      (path : String) (d ready : Disk)
      → t.name ≢ path
      → IsRooted d
      → reject_conflicting_intents path d ≡ ok tt
      → create_directory d ≡ ok ready
      → (j : String) → is_conflict path j ≡ true
      → lookup j (begun path ready).files ≡ none
  begun_free path d ready apart rooted alone made j conflict = ground (
    arith,
    lookup-write_calls t path (differ t.name path apart) j (canonical (new_intent r i) ∷ []) ready,
    eq_iff path j,
    eq_iff j path,
    any-keys_free (is_conflict path) d.files j (no_conflict path d rooted alone) conflict,
    ap (lookup j) (create_directory-found d ready made).1,
  )

  reject_conflicting-begun :
      (path : String) (d ready : Disk)
      → t.name ≢ path
      → IsRooted d
      → reject_conflicting_intents path d ≡ ok tt
      → create_directory d ≡ ok ready
      → reject_conflicting_intents path (begun path ready) ≡ ok tt
  unfolding reject_conflicting_intents inspect_directory
  reject_conflicting-begun path d ready apart rooted alone made =
      let (present, files, _) = create_directory-found d ready made in
      let (folder, getuid) =
        run-folder t path (write_calls (canonical (new_intent r i) ∷ [])) ready in
      let free : any (is_conflict path) (keys (begun path ready).files) ≡ false =
        free-any-keys (is_conflict path) (begun path ready).files
          λ j conflict. begun_free path d ready apart rooted alone made j conflict in
      rw (folder, getuid) (rw present (rw free refl))

  pub load-begun :
      (path : String) (d ready : Disk)
      → t.name ≢ path
      → IsRooted d
      → reject_conflicting_intents path d ≡ ok tt
      → create_directory d ≡ ok ready
      → load_intent observe r path (begun path ready) ≡ ok (some (sorted_intent r i))
  unfolding load_intent
  load-begun path d ready apart rooted alone made =
      let node =
        lookup-write_calls t path (differ t.name path apart) path (canonical (new_intent r i) ∷ [])
          ready in
      rw (reject_conflicting-begun path d ready apart rooted alone made) (
        rw
          (
            node,
            eq_refl path,
            (run-folder t path (write_calls (canonical (new_intent r i) ∷ [])) ready).1,
          )
          (unfold fresh_node in load_fresh_node ready.getuid))
