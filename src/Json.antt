-- ===== src/Json.antt =====
-- The values of Python's `json` module, which the automation keeps its receipts in. A number that is
-- no integer keeps its spelling.
pub mod Print
pub mod Parse
pub mod Load
pub mod Same
pub mod Members
pub mod Plain
pub mod Size
pub mod Ascii
use zygveil.Base.{
  ℕ, String, Bool, true, false, ◌&&◌, ◌==◌, Option, none, some, List, [], ◌∷◌, Dict, lookup, eqb,
}

mutual
  pub data Json : Type 0 where
    null : Json
    bool : Bool → Json
    int : ℕ → Json
    minus : ℕ → Json
    real : String → Json
    text : String → Json
    arr : Items → Json
    obj : Fields → Json

  pub data Items : Type 0 where
    nil : Items
    cons : Json → Items → Items

  pub data Fields : Type 0 where
    end : Fields
    field : String → Json → Fields → Fields

-- An object as a dictionary, and back.
unfoldable pub entries : Fields → Dict Json
entries end = []
entries (field k v fs) = (k, v) ∷ entries fs

unfoldable pub fields : Dict Json → Fields
fields [] = end
fields ((k, v) ∷ d) = field k v (fields d)

-- `value == s` for a text `s`, where the value may be missing
abbrev pub is_str : Option Json → String → Bool
is_str (some (text t)) s = t == s
is_str _ s = false

-- `type(value) is int and value == n`
abbrev pub is_int : Option Json → ℕ → Bool
is_int (some (int m)) n = eqb m n
is_int _ n = false

-- The text, if the value is one.
abbrev pub as_str : Option Json → Option String
as_str (some (text t)) = some t
as_str _ = none

-- `isinstance(value, str) and test(value)`
abbrev pub str_and : (String → Bool) → Option Json → Bool
str_and test (some (text t)) = test t
str_and test _ = false
