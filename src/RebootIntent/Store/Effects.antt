-- ===== src/RebootIntent/Store/Effects.antt =====
-- The file operations of RebootIntent/Disk.antt, seen file by file.
use zygveil.Base.{
  String, Option-cases, inl, inr, ◌≡◌, refl, ◌∙◌, Bool, true, false, ◌==◌, Option, none, some, [],
  ◌∷◌, Dict, keys, lookup, lookup-insert, any, eq_iff, eq_refl, arith, if◌then◌else◌,
}
use zygveil.RebootIntent.Disk.{Node, Disk, without, replace, update_file}

pub lookup-without :
    (k j : String) (d : Dict Node) → lookup j (without k d) ≡ (if k == j then none else lookup j d)
unfolding lookup without
lookup-without k j [] = ground arith
lookup-without k j ((i, n) ∷ d) =
    ground (arith, lookup-without k j d, eq_iff k j, eq_iff i k, eq_iff i j)

abbrev pub map_node : (Node → Node) → Option Node → Option Node
map_node f none = none
map_node f (some n) = some (f n)

-- What the files of one name are after each operation.
pub lookup-update_file :
    (path j : String) (f : Node → Node) (d : Disk)
    → lookup j (update_file path f d).files
      ≡ (if path == j then map_node f (lookup path d.files) else lookup j d.files)
unfolding update_file
lookup-update_file path j f d = elim (Option-cases (lookup path d.files)) [
  | inl e ↦ rw e (ground (arith, eq_iff path j))
  | inr (n, e) ↦ rw e (lookup-insert path j (f n) d.files)
]

pub lookup-replace :
    (from to j : String) (n : Node) (d : Disk)
    → lookup from d.files ≡ some n
    → lookup j (replace from to d).files
      ≡ (if to == j then some n else if from == j then none else lookup j d.files)
unfolding replace
lookup-replace from to j n d h =
    rw h (lookup-insert to j n (without from d.files) ∙ rw lookup-without)

-- A test holds of no key exactly when every name that it holds of is free.
pub any-keys_free :
    (test : String → Bool) (d : Dict Node) (j : String)
    → any test (keys d) ≡ false
    → test j ≡ true
    → lookup j d ≡ none
unfolding lookup
any-keys_free test [] j h t = refl
any-keys_free test ((i, n) ∷ d) j h t = ground (arith, any-keys_free test d j, eq_iff i j)

pub free-any-keys :
    (test : String → Bool) (d : Dict Node)
    → ((j : String) → test j ≡ true → lookup j d ≡ none)
    → any test (keys d) ≡ false
unfolding lookup
free-any-keys test [] h = refl
free-any-keys test ((i, n) ∷ d) h =
    let rest : any test (keys d) ≡ false = free-any-keys test d (λ j t. ground (arith, h j t)) in
    ground (arith, h i, eq_refl i)
