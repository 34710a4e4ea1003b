-- ===== src/ServerVpn/Clock.antt =====
-- When two intervals of tools/automation/server_vpn_oracle.py have a time in common.
use zygveil.Base.{◌<◌, ◌≡◌, ◌⊎◌, inl, inr, true, false, Bool-cases, arith}
use zygveil.ServerVpn.Records.{Seconds, least, greatest, overlap_ms}

module _ (seconds : Seconds) where
  open seconds use {Time, of_int, minus, times, less, truncate}

  -- How finite floating-point numbers compare, and the signs of a difference and of what `int` makes
  -- of a thousandfold.
  pub record IsClock : Type 0 where
    pub irreflexive : (a : Time) → less a a ≡ false
    pub transitive : (a b c : Time) → less a b ≡ true → less b c ≡ true → less a c ≡ true
    pub comparable : (a b c : Time) → less a c ≡ true → (less a b ≡ true) ⊎ (less b c ≡ true)
    pub positive_minus : (a b : Time) → less (of_int 0) (minus a b) ≡ true → less b a ≡ true
    pub positive_truncate :
        (a : Time) → 0 < truncate (times a (of_int 1000)) → less (of_int 0) a ≡ true

module _ (seconds : Seconds) (clock : IsClock seconds) where
  open seconds use {Time, of_int, minus, times, less, truncate}

  before_least :
      (x a b : Time) → less x (least seconds a b) ≡ true → (less x a ≡ true) × (less x b ≡ true)
  before_least x a b h = elim (Bool-cases (less b a)) [
    | inl smaller ↦
        let here : less x b ≡ true = rw smaller at h in (clock.transitive x b a here smaller, here)
    | inr larger ↦
        let here : less x a ≡ true = rw larger at h in
        (
          here,
          elim (clock.comparable x b a here) [
            | inl less_b ↦ less_b
            | inr never ↦ absurd (ground arith)
          ],
        )
  ]

  greatest_before :
      (x a b : Time) → less (greatest seconds a b) x ≡ true → (less a x ≡ true) × (less b x ≡ true)
  greatest_before x a b h = elim (Bool-cases (less a b)) [
    | inl smaller ↦
        let here : less b x ≡ true = rw smaller at h in (clock.transitive a b x smaller here, here)
    | inr larger ↦
        let here : less a x ≡ true = rw larger at h in
        (
          here,
          elim (clock.comparable a b x here) [
            | inl never ↦ absurd (ground arith)
            | inr less_b ↦ less_b
          ],
        )
  ]

  positive_greatest :
      (a : Time) → less (of_int 0) (greatest seconds (of_int 0) a) ≡ true → less (of_int 0) a ≡ true
  positive_greatest a h = elim (Bool-cases (less (of_int 0) a)) [
    | inl positive ↦ positive
    | inr other ↦
        let never : less (of_int 0) (of_int 0) ≡ true = rw other at h in
        absurd (ground (arith, clock.irreflexive (of_int 0)))
  ]

  -- If the overlap is not 0, each interval begins before the other ends.
  pub overlap_ms-less :
      (t c : Time × Time)
      → 0 < overlap_ms seconds t c
      → (less t.0 c.1 ≡ true) × (less c.0 t.1 ≡ true)
  unfolding overlap_ms
  overlap_ms-less (target_start, target_end) (canary_start, canary_end) h =
      let last = least seconds target_end canary_end in
      let first = greatest seconds target_start canary_start in
      let lasting = clock.positive_minus last first (
        positive_greatest (minus last first)
          (clock.positive_truncate (greatest seconds (of_int 0) (minus last first)) h)) in
      let (target, canary) = greatest_before last target_start canary_start lasting in
      (
        (before_least target_start target_end canary_end target).1,
        (before_least canary_start target_end canary_end canary).0,
      )
