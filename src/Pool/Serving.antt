-- ===== src/Pool/Serving.antt =====
-- Which account `Next` hands out.
use devin2proxy.Prelude.{
  ℕ, ◌≤◌, ◌<◌, ◌≡◌, ap, inl, inr, Option, some, arith, length, ◌==◌, Bool-cases, get_elem?, get_or,
}
use devin2proxy.Rotate
use devin2proxy.Rotate.{RotationCursor, deadline, wrap_next}
use devin2proxy.Rotate.Pick.{Picked, Choice, first, soonest, pick-Picked, wrap_next-cooling}
use devin2proxy.Pool.Accounts.{Pool, next, next_of_pick}
use devin2proxy.Pool.Invariant.{IsConsistent}

-- The answer of `Next`: the account in slot `idx`, chosen by the walk, with nothing but the walk
-- position and the last index changed.
pub record Served (p : Pool) (now : ℕ) (r : Option ℕ × Pool) : Type 0 where
  pub idx : ℕ
  pub in_range : idx < length p.entries
  pub answer : r.0 ≡ get_elem? p.entries idx
  pub choice : Choice (wrap_next p.rot) now idx
  pub last : r.1.last_rotation ≡ some idx
  pub cooling : r.1.rot.cooling ≡ p.rot.cooling
  pub same_entries : r.1.entries ≡ p.entries

next_of_pick-Served :
    (p : Pool) (now : ℕ) (r : Option ℕ × RotationCursor)
    → IsConsistent p
    → Picked (wrap_next p.rot) now r
    → Served p now (next_of_pick p r)
unfolding next_of_pick
next_of_pick-Served p now r v k = record {
  idx = k.idx;
  in_range = ground (arith, k.in_range, v.slots, wrap_next-cooling p.rot);
  answer = rw k.result;
  choice = k.choice;
  last = rw k.result;
  cooling = rw k.result (wrap_next-cooling p.rot);
  same_entries = rw k.result;
}

-- A pool that is not empty always hands out one of its accounts: the first warm one of the walk, and
-- only if all are cooling one of the soonest to recover. No cooldown moves.
pub next-Served :
    (p : Pool) (now : ℕ) → IsConsistent p → 0 < length p.entries → Served p now (next p now)
unfolding next
next-Served p now v h = elim (Bool-cases (length p.entries == 0)) [
  | inl empty ↦ absurd (ground arith)
  | inr some_left ↦ rw some_left (
      next_of_pick-Served p now (Rotate.pick p.rot now) v
        (pick-Picked p.rot now (ground (arith, v.slots))))
]

-- A cooling account is not handed out while another one is warm.
pub next_warm :
    (p : Pool) (now i : ℕ)
    → IsConsistent p
    → i < length p.entries
    → deadline p.rot i ≤ now
    → (idx : ℕ) × ((next p now).0 ≡ get_elem? p.entries idx)
      × (idx < length p.entries)
      × (deadline p.rot idx ≤ now)
next_warm p now i v h warm = of_choice (next-Served p now v (omega arith))
  where
    same_deadline : (k : ℕ) → deadline (wrap_next p.rot) k ≡ deadline p.rot k
    same_deadline k = ap (λ ts. get_or ts k 0) (wrap_next-cooling p.rot)

    warm_choice : (idx : ℕ) → Choice (wrap_next p.rot) now idx → deadline p.rot idx ≤ now
    warm_choice idx (first k hk e w before) = omega (arith, same_deadline idx)
    warm_choice idx (soonest all least) =
        absurd
          (omega (arith, all i (ground (arith, v.slots, wrap_next-cooling p.rot)), same_deadline i))

    of_choice :
        Served p now (next p now)
        → (idx : ℕ) × ((next p now).0 ≡ get_elem? p.entries idx)
          × (idx < length p.entries)
          × (deadline p.rot idx ≤ now)
    of_choice s = (s.idx, s.answer, s.in_range, warm_choice s.idx s.choice)
