-- ===== src/Rotate/Walk.antt =====
-- The walk round the slots: which slots its steps meet, and what the two loops of `pick` return.
use native.Mathlib.Nat.{mod-eq_of_lt, mod-eq-sub-mod, add-zero}
use native.Mathlib.Decide.{dec_lt}
use devin2proxy.Prelude.{
  ℕ, zero, suc, ◌+◌, ◌-◌, ◌%◌, ◌≤◌, ◌<◌, ◌≡◌, ◌∙◌, subst, inl, inr, Option, some, none, arith, ltb,
  Bool-cases, length, not_ltb→le, ltb→lt, if◌then◌else◌,
}
use devin2proxy.Rotate.{RotationCursor, deadline, slot, first_warm, soonest_slot}

pub mod-eq-sub : (a n : ℕ) → n ≤ a → a < n + n → a % n ≡ a - n
mod-eq-sub a n h k =
    mod-eq-sub-mod {n = a} {m = n} h ∙ mod-eq_of_lt {n = a - n} {m = n} (omega arith)

wrap_onto : (n a i : ℕ) → a < n → i < n → (k : ℕ) × (k < n) × ((a + k) % n ≡ i)
wrap_onto n a i ha hi = elim (dec_lt i a) [
  | yes below ↦
      let turn : a + (i + n - a) ≡ i + n = omega arith in
      (
        i + n - a,
        omega arith,
        rw turn (mod-eq-sub (i + n) n (omega arith) (omega arith) ∙ omega arith),
      )
  | no above ↦
      let turn : a + (i - a) ≡ i = omega arith in
      (i - a, omega arith, rw turn (mod-eq_of_lt {n = i} {m = n} hi))
]

module _ (c : RotationCursor) (placed : c.next < length c.cooling) where
  -- Every slot is met by some step of the walk.
  pub slot_onto : (i : ℕ) → i < length c.cooling → (k : ℕ) × (k < length c.cooling) × (slot c k ≡ i)
  slot_onto i h = wrap_onto (length c.cooling) c.next i placed h

  pub slot-lt : (k : ℕ) → slot c k < length c.cooling
  slot-lt k = omega arith

  pub slot-zero : slot c 0 ≡ c.next
  slot-zero = rw add-zero (mod-eq_of_lt placed)

-- A property of the numbers from `i` on holds at `i` and above it.
from_first : (P : ℕ → Type 0) (i j : ℕ) → P i → (i + 1 ≤ j → P j) → i ≤ j → P j
from_first P i j here above h = elim (dec_lt i j) [
  | yes p ↦ above (omega arith)
  | no p ↦ let e : i ≡ j = omega arith in subst P e here
]

module _ (c : RotationCursor) (now : ℕ) where
  -- What the first loop returns, started at step `i`.
  pub data Search (rounds i : ℕ) : Option ℕ → Type 0 where
    warm :
        (k : ℕ)
        → i ≤ k
        → k < i + rounds
        → deadline c (slot c k) ≤ now
        → ((j : ℕ) → i ≤ j → j < k → now < deadline c (slot c j))
        → Search rounds i (some (slot c k))
    exhausted :
        ((j : ℕ) → i ≤ j → j < i + rounds → now < deadline c (slot c j)) → Search rounds i none

  extend-Search :
      (rounds i : ℕ) (r : Option ℕ)
      → now < deadline c (slot c i)
      → Search rounds (i + 1) r
      → Search (suc rounds) i r
  extend-Search rounds i r cold (warm k lo hi w before) =
      warm k (omega arith) (omega arith) w
        (λ j p q. from_first (λ t. now < deadline c (slot c t)) i j cold (λ m. before j m q) p)
  extend-Search rounds i r cold (exhausted all) = exhausted (λ j p q.
      from_first (λ t. now < deadline c (slot c t)) i j cold (λ m. all j m (omega arith)) p)

  pub first_warm-Search : (rounds i : ℕ) → Search rounds i (first_warm c now rounds i)
  unfolding first_warm
  first_warm-Search zero i = exhausted (λ j p q. absurd (omega arith))
  first_warm-Search (suc rounds) i = elim (Bool-cases (ltb now (deadline c (slot c i)))) [
    | inl cold ↦
        rw cold (extend-Search rounds i _ (ltb→lt _ _ cold) (first_warm-Search rounds (i + 1)))
    | inr w ↦
        rw w (warm i (omega arith) (omega arith) (not_ltb→le _ _ w) (λ j p q. absurd (omega arith)))
  ]

module _ (c : RotationCursor) (placed : c.next < length c.cooling) where
  -- The second loop stays in range, and no slot that it has compared has a sooner deadline.
  pub soonest_slot-lt :
      (rounds i best : ℕ)
      → best < length c.cooling
      → soonest_slot c rounds i best < length c.cooling
  unfolding soonest_slot
  soonest_slot-lt zero i best h = h
  soonest_slot-lt (suc rounds) i best h =
      soonest_slot-lt rounds (i + 1) _ (ground (arith, slot-lt c placed i))

  pub soonest_slot-le_best :
      (rounds i best : ℕ) → deadline c (soonest_slot c rounds i best) ≤ deadline c best
  unfolding soonest_slot
  soonest_slot-le_best zero i best = omega arith
  soonest_slot-le_best (suc rounds) i best = ground (
    arith,
    soonest_slot-le_best rounds (i + 1)
        (if ltb (deadline c (slot c i)) (deadline c best) then slot c i else best),
  )

  pub soonest_slot-le :
      (rounds i best k : ℕ)
      → i ≤ k
      → k < i + rounds
      → deadline c (soonest_slot c rounds i best) ≤ deadline c (slot c k)
  unfolding soonest_slot
  soonest_slot-le zero i best k lo hi = absurd (omega arith)
  soonest_slot-le (suc rounds) i best k lo hi =
      from_first (λ t. deadline c (soonest_slot c (suc rounds) i best) ≤ deadline c (slot c t)) i k
        (ground (
          arith,
          soonest_slot-le_best rounds (i + 1)
              (if ltb (deadline c (slot c i)) (deadline c best) then slot c i else best),
        ))
        (λ m. soonest_slot-le rounds (i + 1) _ k m (omega arith)) lo
