-- ===== src/ServerVpn/Differential/Statuses.antt =====
-- What the projection of tools/automation/server_vpn_oracle.py says of the detectors it is made of, where it is
-- the one of a diagnostics residual.
use zygveil.Base.{
  String, ◌≡◌, refl, sym, ap, subst, ◌∙◌, inl, inr, Bool, Bool-cases, true, false, ◌==◌, Option,
  none, some, some-injective, List, [], ◌∷◌, All, Dict, lookup, sort_by, insert_by, >>=-eq-ok, ok,
  ok-injective, &&-left, &&-right, eq_iff, arith,
}
use Prim.Native.String.{compare}
use Prim.Native.Nat.{Ordering}
use zygveil.Json.{Json, text, obj, field, end, entries, fields}
use zygveil.Json.Same.{Reals, same, same_fields}
use zygveil.ServerVpn.Records.{Item, Run, detector_records}
use zygveil.ServerVpn.Projection.{
  required, stable_observation, project_record, project_records, stable_run_projection,
  same_projection,
}
use zygveil.ServerVpn.Differential.{diagnostics_residual_projection}

-- What holds of all that is sorted holds of all that there was.
module _ {ℓ κ} {A : Type ℓ} (P : A → Type κ) (key : A → String) where
  All-placed :
      (a b : A) (bs later : List A) (o : Ordering)
      → (All P later → P a × All P bs)
      → All P (elim o as (λ _. List A) [ Ordering.lt ↦ b ∷ later | _ ↦ a ∷ b ∷ bs ])
      → P a × All P (b ∷ bs)
  All-placed a b bs later Ordering.lt more (first, rest) =
      let (here, others) = more rest in (here, (first, others))
  All-placed a b bs later Ordering.eq more (here, rest) = (here, rest)
  All-placed a b bs later Ordering.gt more (here, rest) = (here, rest)

  All-insert_by : (a : A) (bs : List A) → All P (insert_by key a bs) → P a × All P bs
  unfolding insert_by
  All-insert_by a [] h = (h.0, tt)
  All-insert_by a (b ∷ bs) h =
      All-placed a b bs (insert_by key a bs) (compare (key b) (key a)) (All-insert_by a bs) h

  All-sort_by : (xs : List A) → All P (sort_by key xs) → All P xs
  unfolding sort_by
  All-sort_by [] h = tt
  All-sort_by (x ∷ xs) h =
      let (first, rest) = All-insert_by x (sort_by key xs) h in (first, All-sort_by xs rest)

All-lookup {κ} :
    (P : String × Item → Type κ) (d : Dict Item) (id : String) (r : Item)
    → All P d
    → lookup id d ≡ some r
    → P (id, r)
unfolding lookup
All-lookup P [] id r h found = absurd (ground arith)
All-lookup P ((j, s) ∷ d) id r (here, rest) found = elim (Bool-cases (j == id)) [
  | inl same ↦
      subst (λ x. P (id, x)) (some-injective s r (rw same at found))
        (subst (λ x. P (x, s)) ((eq_iff j id).0 same) here)
  | inr other ↦ All-lookup P d id r rest (rw other at found)
]

-- A detector whose status and observation stand in a projection.
record IsProjected (reals : Reals) (expected : Dict Json) (x : String × Item) : Type 0 where
  status : Json
  observation : Json
  value : Json
  has_status : lookup "status" x.1 ≡ some status
  has_observation : stable_observation x.1 ≡ ok observation
  there : lookup x.0 expected ≡ some value
  alike :
      same reals (obj (field "status" status (field "observation" observation end))) value ≡ true

required-some : (o : Option Json) (v : Json) → required o ≡ ok v → o ≡ some v
required-some none v h = absurd (ground arith)
required-some (some w) v h = ap some (ok-injective h)

alike_of :
    (reals : Reals) (v : Json) (o : Option Json)
    → elim o as (λ _. Bool) [ none ↦ false | some w ↦ same reals v w ] ≡ true
    → (w : Json) × (o ≡ some w) × (same reals v w ≡ true)
alike_of reals v none h = absurd (ground arith)
alike_of reals v (some w) h = (w, refl, h)

project_records-IsProjected :
    (reals : Reals) (expected : Dict Json) (d : Dict Item) (p : Dict Json)
    → project_records d ≡ ok p
    → same_fields reals (fields p) expected ≡ true
    → All (IsProjected reals expected) d
unfolding project_records project_record same fields
project_records-IsProjected reals expected [] p h alike = tt
project_records-IsProjected reals expected ((id, r) ∷ d) p h alike =
    let (v, first, r₁) = >>=-eq-ok (project_record r) _ h in
    let (rest, later, r₂) = >>=-eq-ok (project_records d) _ r₁ in
    let (status, s, r₃) = >>=-eq-ok (required (lookup "status" r)) _ first in
    let (observation, o, r₄) = >>=-eq-ok (stable_observation r) _ r₃ in
    let both =
      subst (λ x. same_fields reals (fields x) expected ≡ true) (sym (ok-injective r₂)) alike in
    let (w, there, like) = alike_of reals v (lookup id expected) (&&-left _ _ both) in
    (
      record {
        status = status;
        observation = observation;
        value = w;
        has_status = required-some (lookup "status" r) status s;
        has_observation = o;
        there = there;
        alike = subst (λ x. same reals x w ≡ true) (sym (ok-injective r₄)) like;
      },
      project_records-IsProjected reals expected d rest later (&&-right _ _ both),
    )

same-text : (reals : Reals) (v : Json) (t : String) → same reals v (text t) ≡ true → v ≡ text t
unfolding same
same-text reals v t h = texts v h
  where
    texts : (v : Json) → same reals v (text t) ≡ true → v ≡ text t
    texts (text s) h = ap text (sym ((eq_iff t s).0 h))
    texts other h = absurd (ground arith)

-- The projection of a diagnostics residual, as it is compared with.
abbrev pub expected : Dict Json
expected = entries (fields diagnostics_residual_projection)

stable_run_projection-IsProjected :
    (reals : Reals) (records : Run) (d : Dict Item) (p : Dict Json)
    → detector_records records ≡ ok d
    → stable_run_projection records ≡ ok p
    → same_projection reals p diagnostics_residual_projection ≡ true
    → All (IsProjected reals expected) d
unfolding stable_run_projection same_projection same
stable_run_projection-IsProjected reals records d p collected h alike =
    let (d', e, projected) = >>=-eq-ok (detector_records records) _ h in
    let same_d : d' ≡ d = ok-injective (sym e ∙ collected) in
    subst (All (IsProjected reals expected)) same_d (
      All-sort_by (IsProjected reals expected) (λ x. x.0) d'
        (project_records-IsProjected reals expected (sort_by (λ x. x.0) d') p projected
          (&&-right _ _ alike)))

status_alike :
    (reals : Reals) (s o v : Json) (t : String)
    → same reals
        (obj (field "status" s (field "observation" o end)))
        (obj (field "status" (text t) (field "observation" v end)))
      ≡ true
    → same reals s (text t) ≡ true
unfolding same lookup entries
status_alike reals s o v t h = ground arith

-- The status of a detector that the residual's projection gives.
pub projected_status :
    (reals : Reals) (records : Run) (d : Dict Item) (p : Dict Json) (id t : String) (v : Json)
    (r : Item)
    → detector_records records ≡ ok d
    → stable_run_projection records ≡ ok p
    → same_projection reals p diagnostics_residual_projection ≡ true
    → lookup id expected ≡ some (obj (field "status" (text t) (field "observation" v end)))
    → lookup id d ≡ some r
    → lookup "status" r ≡ some (text t)
projected_status reals records d p id t v r collected projected alike listed found =
    let x =
      All-lookup (IsProjected reals expected) d id r
        (stable_run_projection-IsProjected reals records d p collected projected alike) found in
    let value : x.value ≡ obj (field "status" (text t) (field "observation" v end)) =
      some-injective x.value _ (sym x.there ∙ listed) in
    let one = status_alike reals x.status x.observation v t (
      subst
        (λ w.
          same reals (obj (field "status" x.status (field "observation" x.observation end))) w
          ≡ true)
        value x.alike) in
    x.has_status ∙ ap some (same-text reals x.status t one)
