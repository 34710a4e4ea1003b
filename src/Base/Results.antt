-- ===== src/Base/Results.antt =====
-- A call that may raise: `CheckError` carries its message.
use Prim.Native.String.{String}
use mathlib.Core.Path.{◌≡◌, refl, ap}
use mathlib.Core.Logic.{◌⊎◌, inl, inr}
use mathlib.Core.Bool.{Bool, true, false}

pub data Result {ℓ} (A : Type ℓ) : Type ℓ where
  ok : A → Result A
  err : String → Result A

-- `if bad: raise CheckError(message)`
abbrev pub reject : Bool → String → Result (Unit {0})
reject true message = err message
reject false message = ok tt

-- A function of what a call returns; an exception goes past it.
module _ {ℓ κ} {A : Type ℓ} {B : Type κ} where
  infixl 5 ◌>>=◌
  abbrev pub ◌>>=◌ : Result A → (A → Result B) → Result B
  err message >>= next = err message
  ok a >>= next = next a

  -- What a call that returned has gone through.
  pub >>=-eq-ok :
      (call : Result A) (next : A → Result B) {b : B}
      → (call >>= next) ≡ ok b
      → (a : A) × (call ≡ ok a) × (next a ≡ ok b)
  >>=-eq-ok (err message) next h = cc
  >>=-eq-ok (ok a) next h = (a, refl, h)

-- A check, and what runs if it passes.
module _ {ℓ} {B : Type ℓ} where
  infixl 5 ◌>>◌
  abbrev pub ◌>>◌ : Result (Unit {0}) → Result B → Result B
  check >> rest = check >>= λ passed. rest

  pub >>-eq-ok :
      (check : Result (Unit {0})) (rest : Result B) {b : B}
      → (check >> rest) ≡ ok b
      → (check ≡ ok tt) × (rest ≡ ok b)
  >>-eq-ok (err message) rest h = cc
  >>-eq-ok (ok tt) rest h = (refl, h)

pub reject-eq-ok : (bad : Bool) (message : String) → reject bad message ≡ ok tt → bad ≡ false
reject-eq-ok true message h = cc
reject-eq-ok false message h = refl

abbrev value_or {ℓ} : {A : Type ℓ} → A → Result A → A
value_or d (ok a) = a
value_or d (err _) = d

pub ok-injective {ℓ} : {A : Type ℓ} {a b : A} → ok a ≡ ok b → a ≡ b
ok-injective {a = a} p = ap (value_or a) p

-- What a guarded block that returned has gone through.
pub reject->>-eq-ok {ℓ} :
    {B : Type ℓ} (bad : Bool) (message : String) (k : Result B) {b : B}
    → (reject bad message >> k) ≡ ok b
    → (bad ≡ false) × (k ≡ ok b)
reject->>-eq-ok true message k h = cc
reject->>-eq-ok false message k h = (refl, h)

pub Result-cases {ℓ} :
    {A : Type ℓ} (r : Result A) → ((a : A) × (r ≡ ok a)) ⊎ ((message : String) × (r ≡ err message))
Result-cases (ok a) = inl (a, refl)
Result-cases (err e) = inr (e, refl)
