-- ===== src/SafeRead/Exact.antt =====
-- The checked read of a private file returns the whole file, or an error.
use zygveil.Base.{
  ℕ, ◌-◌, ◌⊎◌, ◌↔◌, Result-cases, ◌≤◌, ◌<◌, String, ◌≡◌, refl, true, false, not, ◌==◌, List, [],
  ◌∷◌, count_chars, join, eqb, ok, Bool-cases, inl, inr, subst, sym, >>=-eq-ok, reject->>-eq-ok,
  ok-injective, not-eq-false, count_chars-join, arith,
}
use zygveil.SafeRead.{
  regular, Stat, Reading, Rule, private_mode, is_private, same_stat, read_all, read_checked,
}

-- The blocks hold the content, in whatever portions.
pub data Serves : String → List String → Type 0 where
  done : Serves "" []
  next :
      {s : String} {bs : List String} (b : String)
      → (b == "") ≡ false
      → Serves s bs
      → Serves (join b s) (b ∷ bs)

-- No block is longer than what is left to read, as `os.read` promises.
abbrev pub Bounded : ℕ → List String → Type 0
Bounded remaining [] = Unit
Bounded remaining (b ∷ bs) = (count_chars b ≤ remaining) × Bounded (remaining - count_chars b) bs

nonempty_count : (b : String) → (b == "") ≡ false → 0 < count_chars b
unfolding count_chars
nonempty_count String.[] h = cc
nonempty_count (String.◌∷◌ c b) h = omega arith

read_all-cons :
    (changed : String) (remaining : ℕ) (b : String) (bs : List String) (s : String)
    → (b == "") ≡ false
    → 0 < remaining
    → read_all changed (remaining - count_chars b) bs ≡ ok s
    → read_all changed remaining (b ∷ bs) ≡ ok (join b s)
unfolding read_all
read_all-cons changed remaining b bs s h more rest = ground arith

read_all-Serves :
    (changed : String) {s : String} {bs : List String}
    → Serves s bs
    → read_all changed (count_chars s) bs ≡ ok s
unfolding read_all count_chars
read_all-Serves changed done = refl
read_all-Serves changed (next {s} {bs} b h serves) =
    let left : count_chars (join b s) - count_chars b ≡ count_chars s =
      omega (arith, count_chars-join b s) in
    read_all-cons changed (count_chars (join b s)) b bs s h
      (omega (arith, count_chars-join b s, nonempty_count b h))
      (subst (λ n. read_all changed n bs ≡ ok s) (sym left) (read_all-Serves changed serves))

-- A block is not empty, and the rest is read from what it leaves; or all has been read.
read_all-split :
    (changed : String) (remaining : ℕ) (b : String) (bs : List String) (s : String)
    → read_all changed remaining (b ∷ bs) ≡ ok s
    → ((remaining ≡ 0) × (s ≡ ""))
      ⊎ ((rest : String) × (read_all changed (remaining - count_chars b) bs ≡ ok rest)
          × (s ≡ join b rest))
unfolding read_all
read_all-split changed remaining b bs s h =
    elim (Result-cases (read_all changed (remaining - count_chars b) bs)) [
      | inl (rest, e) ↦ elim (Bool-cases (eqb remaining 0)) [
        | inl z ↦ inl (ground arith)
        | inr z ↦ inr (rest, e, ground arith)
      ]
      | inr (message, e) ↦ inl (ground arith)
    ]

read_all-nil :
    (changed : String) (remaining : ℕ) (s : String)
    → read_all changed remaining [] ≡ ok s
    → (remaining ≡ 0) × (s ≡ "")
unfolding read_all
read_all-nil changed remaining s h = elim (Bool-cases (eqb remaining 0)) [
  | inl z ↦ (ground arith, sym (ok-injective (rw z at h)))
  | inr z ↦ absurd (ground arith)
]

count_chars-read_all :
    (changed : String) (remaining : ℕ) (bs : List String) (s : String)
    → Bounded remaining bs
    → read_all changed remaining bs ≡ ok s
    → count_chars s ≡ remaining
unfolding read_all count_chars
count_chars-read_all changed remaining [] s b h =
    let (z, e) = read_all-nil changed remaining s h in rw (z, e) refl
count_chars-read_all changed remaining (block ∷ bs) s (fits, b) h =
    elim (read_all-split changed remaining block bs s h) [
      | inl (z, e) ↦ rw (z, e) refl
      | inr (rest, e, same) ↦ rw same (
          omega (
            arith,
            count_chars-join block rest,
            count_chars-read_all changed (remaining - count_chars block) bs rest b e,
          ))
    ]

-- The file that `before` describes: a private regular file of the caller's own, with one name.
pub record IsPrivate (getuid limit : ℕ) (s : Stat) : Type 0 where
  pub kind : s.kind ≡ regular
  pub perm : s.perm ≡ private_mode
  pub owner : s.uid ≡ getuid
  pub one_link : s.nlink ≡ 1
  pub nonempty : 0 < s.size
  pub bounded : s.size ≤ limit

is_private_iff :
    (getuid limit : ℕ) (s : Stat) → (is_private getuid limit s ≡ true) ↔ IsPrivate getuid limit s
unfolding is_private
is_private_iff getuid limit s = (λ h. ground arith, λ h. ground arith)

-- A checked read that returns has read a private regular file that the caller owns, with one name
-- and within the limit, whole: as many bytes as the file has, and the same file with the same size
-- and the other stable fields after the read as before.
pub read_checked_sound :
    (getuid : ℕ) (rule : Rule) (r : Reading) (s : String)
    → Bounded r.before.size r.blocks
    → read_checked getuid rule r ≡ ok s
    → IsPrivate getuid rule.limit r.before
      × (count_chars s ≡ r.before.size)
      × (same_stat r.before r.after ≡ true)
unfolding read_checked
read_checked_sound getuid rule r s b h =
    let (private, r₁) = reject->>-eq-ok (not (is_private getuid rule.limit r.before)) _ _ h in
    let (bytes, e, r₂) = >>=-eq-ok (read_all rule.changed_error r.before.size r.blocks) _ r₁ in
    let (stable, same) = reject->>-eq-ok (not (same_stat r.before r.after)) _ (ok bytes) r₂ in
    (
      (is_private_iff getuid rule.limit r.before).0 (not-eq-false _ private),
      subst (λ t. count_chars t ≡ r.before.size) (ok-injective same)
          (count_chars-read_all rule.changed_error r.before.size r.blocks bytes b e),
      not-eq-false _ stable,
    )

-- A private file that nobody changes is read whole, in whatever portions the system hands it over.
pub read_checked_complete :
    (getuid : ℕ) (rule : Rule) (stat : Stat) (s : String) (blocks : List String)
    → IsPrivate getuid rule.limit stat
    → stat.size ≡ count_chars s
    → Serves s blocks
    → read_checked getuid rule (record { before = stat; blocks = blocks; after = stat }) ≡ ok s
unfolding read_checked
read_checked_complete getuid rule stat s blocks p size serves =
    rw
      ((is_private_iff getuid rule.limit stat).1 p, size, read_all-Serves rule.changed_error serves)
      (ground arith)
