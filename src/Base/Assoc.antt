-- ===== src/Base/Assoc.antt =====
-- Python's `dict` with text keys, in insertion order.
use Prim.Native.String.{String}
use mathlib.Core.Path.{◌≡◌, refl, ap}
use mathlib.Core.Bool.{Bool, false, ◌&&◌, ◌||◌}
use mathlib.Core.Option.{Option, none, some}
use mathlib.Core.List.{List, [], ◌∷◌, ◌++◌}
use native.Mathlib.Omega.{arith}
use text.Mathlib.Text.{◌==◌}
use text.Mathlib.TextEquality.{eq_iff}
use zygveil.Base.Tests.{if◌then◌else◌}
use zygveil.Base.Lists.{contains, all}
use zygveil.Base.Results.{Result, ok, err, ok-injective}

abbrev pub Dict {ℓ} : Type ℓ → Type ℓ
Dict V = List (String × V)

module _ {ℓ} {V : Type ℓ} where
  abbrev pub keys : Dict V → List String
  keys [] = []
  keys ((k, _) ∷ d) = k ∷ keys d

  -- `d.get(k)`
  unfoldable pub lookup : String → Dict V → Option V
  lookup k [] = none
  lookup k ((j, v) ∷ d) = if j == k then some v else lookup k d

  -- `d[k] = v`
  unfoldable pub insert : String → V → Dict V → Dict V
  insert k v [] = (k, v) ∷ []
  insert k v ((j, w) ∷ d) = if j == k then (j, v) ∷ d else (j, w) ∷ insert k v d

  -- `k in d`
  abbrev pub has_key : Dict V → String → Bool
  has_key d k = contains (keys d) k

  -- `set(d) == names`
  abbrev pub has_exactly : Dict V → List String → Bool
  has_exactly d names = all (contains names) (keys d) && all (has_key d) names

  -- `d[k]`
  unfoldable pub item : String → Dict V → Result V
  unfolding lookup
  item k d = elim (lookup k d) [ none ↦ err "KeyError" | some v ↦ ok v ]

  entry :
      (o : Option V) (v : V)
      → elim o as (λ _. Result V) [ none ↦ err "KeyError" | some w ↦ ok w ] ≡ ok v
      → o ≡ some v
  entry none v h = cc
  entry (some w) v h = ap some (ok-injective h)

  pub item-lookup : (k : String) (d : Dict V) (v : V) → item k d ≡ ok v → lookup k d ≡ some v
  unfolding item
  item-lookup k d v h = entry (lookup k d) v h

  pub lookup-item : (k : String) (d : Dict V) (v : V) → lookup k d ≡ some v → item k d ≡ ok v
  unfolding item
  lookup-item k d v h = rw (item, h) refl

  abbrev pub NodupKeys : Dict V → Type 0
  NodupKeys [] = Unit
  NodupKeys ((k, _) ∷ d) = (contains (keys d) k ≡ false) × NodupKeys d

  pub lookup-insert :
      (k j : String) (v : V) (d : Dict V)
      → lookup j (insert k v d) ≡ (if k == j then some v else lookup j d)
  unfolding lookup insert
  lookup-insert k j v [] = refl
  lookup-insert k j v ((i, w) ∷ d) =
      ground (arith, eq_iff k j, eq_iff i k, eq_iff i j, lookup-insert k j v d)

  pub contains-insert :
      (k j : String) (v : V) (d : Dict V)
      → contains (keys (insert k v d)) j ≡ (j == k || contains (keys d) j)
  unfolding insert
  contains-insert k j v [] = refl
  contains-insert k j v ((i, w) ∷ d) =
      ground (arith, eq_iff j k, eq_iff i k, eq_iff j i, contains-insert k j v d)

  -- A new key goes to the end.
  pub insert-new :
      (k : String) (v : V) (d : Dict V) → has_key d k ≡ false → insert k v d ≡ d ++ ((k, v) ∷ [])
  unfolding insert
  insert-new k v [] h = refl
  insert-new k v ((j, w) ∷ d) h =
      rw (insert-new k v d (ground arith)) (ground (arith, eq_iff j k, eq_iff k j))

  pub insert-NodupKeys : (k : String) (v : V) (d : Dict V) → NodupKeys d → NodupKeys (insert k v d)
  unfolding insert
  insert-NodupKeys k v [] h = (refl, tt)
  insert-NodupKeys k v ((i, w) ∷ d) h =
      ground (arith, insert-NodupKeys k v d, contains-insert k i v d, eq_iff i k, eq_iff k i)
