-- ===== src/Base/Sort.antt =====
-- `sorted(xs, key=…)` with a text for a key: stable, by insertion.
use Prim.Native.Nat.{Ordering}
use Prim.Native.String.{String, compare}
use mathlib.Core.List.{List, [], ◌∷◌}

module _ {ℓ} {A : Type ℓ} (key : A → String) where
  unfoldable pub insert_by : A → List A → List A
  insert_by a [] = a ∷ []
  insert_by a (b ∷ bs) =
      let later = insert_by a bs in
      elim (compare (key b) (key a)) [ Ordering.lt ↦ b ∷ later | _ ↦ a ∷ b ∷ bs ]

  unfoldable pub sort_by : List A → List A
  unfolding insert_by
  sort_by [] = []
  sort_by (a ∷ as') = insert_by a (sort_by as')
