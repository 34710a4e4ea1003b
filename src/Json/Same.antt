-- ===== src/Json/Same.antt =====
-- Python's `==` on decoded values: `True` is 1, a dictionary has no order, and a list has.
use zygveil.Base.{
  ℕ, String, Bool, true, false, ◌&&◌, ◌||◌, Option, none, some, Dict, lookup, eqb, same_bool,
  length,
}
use zygveil.Json.{
  Json, null, bool, int, minus, real, text, arr, obj, Items, nil, cons, Fields, end, field, entries,
  is_str,
}

-- What the comparisons need of floating-point numbers, by the spelling of their literals.
pub record Reals : Type 0 where
  pub equal : String → String → Bool
  -- against an integer: whether it is below zero, and its absolute value
  pub is_whole : String → Bool → ℕ → Bool

pub data Number : Type 0 where
  whole : Bool → ℕ → Number
  spelled : String → Number

abbrev pub number_of : Json → Option Number
number_of (bool true) = some (whole false 1)
number_of (bool false) = some (whole false 0)
number_of (int n) = some (whole false n)
number_of (minus n) = some (whole true n)
number_of (real s) = some (spelled s)
number_of _ = none

module _ (reals : Reals) where
  abbrev pub same_number : Number → Number → Bool
  same_number (whole a m) (whole b n) = eqb m n && (same_bool a b || eqb m 0)
  same_number (whole a m) (spelled s) = reals.is_whole s a m
  same_number (spelled s) (whole a m) = reals.is_whole s a m
  same_number (spelled s) (spelled t) = reals.equal s t

  abbrev pub same_numbers : Option Number → Option Number → Bool
  same_numbers (some a) (some b) = same_number a b
  same_numbers _ _ = false

  unfoldable mutual
    unfolding lookup entries

    pub same : Json → Json → Bool
    same null null = true
    same null _ = false
    same (text s) v = is_str (some v) s
    same (arr xs) (arr ys) = same_items xs ys
    same (arr xs) _ = false
    same (obj fs) (obj gs) =
        eqb (length (entries fs)) (length (entries gs)) && same_fields fs (entries gs)
    same (obj fs) _ = false
    same (bool b) v = same_numbers (number_of (bool b)) (number_of v)
    same (int n) v = same_numbers (number_of (int n)) (number_of v)
    same (minus n) v = same_numbers (number_of (minus n)) (number_of v)
    same (real s) v = same_numbers (number_of (real s)) (number_of v)

    pub same_items : Items → Items → Bool
    same_items nil nil = true
    same_items nil (cons y ys) = false
    same_items (cons x xs) nil = false
    same_items (cons x xs) (cons y ys) = same x y && same_items xs ys

    -- Each member of the first stands in the second.
    pub same_fields : Fields → Dict Json → Bool
    same_fields end d = true
    same_fields (field k v fs) d =
        (elim (lookup k d) [ none ↦ false | some w ↦ same v w ]) && same_fields fs d

  -- `value == v`, where the value may be missing
  abbrev pub is_same : Option Json → Json → Bool
  is_same none v = false
  is_same (some w) v = same w v
