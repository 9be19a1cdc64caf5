-- ===== src/Rotate/Pick.antt =====
-- What `pick` returns, on every branch.
use devin2proxy.Prelude.{
  ℕ, zero, suc, ◌-◌, ◌≤◌, ◌<◌, ◌≡◌, refl, inl, inr, Option, none, arith, Bool-cases, ◌==◌, length,
  subst, ==_iff,
}
use devin2proxy.Rotate.{
  RotationCursor, deadline, slot, first_warm, soonest_slot, wrap_next, hand_out, pick_from, pick,
}
use devin2proxy.Rotate.Walk.{
  Search, warm, exhausted, first_warm-Search, slot_onto, slot-lt, slot-zero, soonest_slot-lt,
  soonest_slot-le_best, soonest_slot-le,
}

-- How a pick among at least one slot ended: with the first warm slot of the walk, or, if every slot
-- is cooling, with one of the soonest deadlines.
pub data Choice (c : RotationCursor) (now idx : ℕ) : Type 0 where
  first :
      (k : ℕ)
      → k < length c.cooling
      → idx ≡ slot c k
      → deadline c idx ≤ now
      → ((j : ℕ) → j < k → now < deadline c (slot c j))
      → Choice c now idx
  soonest :
      ((i : ℕ) → i < length c.cooling → now < deadline c i)
      → ((i : ℕ) → i < length c.cooling → deadline c idx ≤ deadline c i)
      → Choice c now idx

pub record Picked (c : RotationCursor) (now : ℕ) (r : Option ℕ × RotationCursor) : Type 0 where
  pub idx : ℕ
  pub result : r ≡ hand_out c idx
  pub in_range : idx < length c.cooling
  pub choice : Choice c now idx

module _ (c : RotationCursor) (now : ℕ) (placed : c.next < length c.cooling) where
  -- A bound at each step of the walk is a bound at each slot.
  over_slots :
      (P : ℕ → Type 0)
      → ((k : ℕ) → k < length c.cooling → P (slot c k))
      → (i : ℕ) → i < length c.cooling
      → P i
  over_slots P each i h = let (k, hk, e) = slot_onto c placed i h in subst P e (each k hk)

  best : ℕ
  best = soonest_slot c (length c.cooling - 1) 1 c.next

  best-le : (k : ℕ) → k < length c.cooling → deadline c best ≤ deadline c (slot c k)
  unfolding best
  best-le zero h =
      rw (slot-zero c placed) (soonest_slot-le_best c placed (length c.cooling - 1) 1 c.next)
  best-le (suc k) h =
      soonest_slot-le c placed (length c.cooling - 1) 1 c.next (suc k) (omega arith) (omega arith)

  Picked-of_Search :
      (r : Option ℕ)
      → Search c now (length c.cooling) 0 r
      → first_warm c now (length c.cooling) 0 ≡ r
      → Picked c now (pick_from c now)
  unfolding pick_from best
  Picked-of_Search r (warm k lo hi w before) e = record {
    idx = slot c k;
    result = rw (e, pick_from);
    in_range = slot-lt c placed k;
    choice = first k (omega arith) refl w (λ j q. before j (omega arith) q);
  }
  Picked-of_Search r (exhausted all) e = record {
    idx = best;
    result = rw (e, pick_from);
    in_range = soonest_slot-lt c placed (length c.cooling - 1) 1 c.next placed;
    choice =
        soonest (over_slots (λ i. now < deadline c i) (λ k h. all k (omega arith) (omega arith)))
          (over_slots (λ i. deadline c best ≤ deadline c i) best-le);
  }

  pick_from-Picked : Picked c now (pick_from c now)
  pick_from-Picked = Picked-of_Search _ (first_warm-Search c now (length c.cooling) 0) refl

pub wrap_next-lt :
    (c : RotationCursor) → 0 < length c.cooling → (wrap_next c).next < length c.cooling
wrap_next-lt c h = ground arith

pub wrap_next-cooling : (c : RotationCursor) → (wrap_next c).cooling ≡ c.cooling
wrap_next-cooling c = ground arith

-- With at least one slot, `pick` answers an index in range and moves `next` just past it; the index
-- is the first warm slot from `next` on, and a soonest deadline only when every slot is cooling.
pub pick-Picked :
    (c : RotationCursor) (now : ℕ) → 0 < length c.cooling → Picked (wrap_next c) now (pick c now)
unfolding pick
pick-Picked c now h = elim (Bool-cases (length c.cooling == 0)) [
  | inl e ↦ absurd (ground (arith, (==_iff (length c.cooling) 0).0 e))
  | inr e ↦ rw e (pick_from-Picked (wrap_next c) now (rw wrap_next-cooling (wrap_next-lt c h)))
]

pub pick-empty : (c : RotationCursor) (now : ℕ) → length c.cooling ≡ 0 → pick c now ≡ (none, c)
unfolding pick
pick-empty c now h = rw h
