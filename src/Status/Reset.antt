-- ===== src/Status/Reset.antt =====
-- What `ResetDeadline` answers.
use devin2proxy.Prelude.{
  ℕ, zero, suc, length, get_or, Option, inr, ◌≤◌, ◌<◌, ◌≡◌, ◌≢◌, refl, ◌⊎◌, inl, false, some, arith,
  List, [], ◌∷◌,
}
use devin2proxy.Status.{
  AccountStatus, sooner, soonest_from, soonest, is_zero, named, unnamed_empty, candidates, is_empty,
  reset_deadline,
}

-- A reset among `ts` that lies ahead, or the start value.
soonest_from-after :
    (now best : ℕ) (ts : List ℕ)
    → (best ≡ 0) ⊎ (now < best)
    → (soonest_from now best ts ≡ 0) ⊎ (now < soonest_from now best ts)
unfolding soonest_from
soonest_from-after now best [] h = h
soonest_from-after now best (t ∷ ts) h =
    soonest_from-after now (sooner now best t) ts (ground arith)

pub soonest-after : (ts : List ℕ) (now : ℕ) → (soonest ts now ≡ 0) ⊎ (now < soonest ts now)
unfolding soonest
soonest-after ts now = soonest_from-after now 0 ts (inl refl)

-- The value that the loop holds only falls once it is set, and is set by any time ahead.
soonest_from-le :
    (now best : ℕ) (ts : List ℕ)
    → best ≢ 0
    → (soonest_from now best ts ≢ 0) × (soonest_from now best ts ≤ best)
unfolding soonest_from
soonest_from-le now best [] h = (h, ground arith)
soonest_from-le now best (t ∷ ts) h = ground (arith, soonest_from-le now (sooner now best t) ts)

-- Whatever the loop of `soonest` starts from, if the time at some place of the list lies ahead of
-- `now`, it answers a time that is set and not after that one.
pub soonest_from-le_each :
    (now best i : ℕ) (ts : List ℕ)
    → i < length ts
    → now < get_or ts i 0
    → (soonest_from now best ts ≢ 0) × (soonest_from now best ts ≤ get_or ts i 0)
unfolding soonest_from
soonest_from-le_each now best i [] h p = absurd (omega arith)
soonest_from-le_each now best zero (t ∷ ts) h p =
    ground (arith, soonest_from-le now (sooner now best t) ts)
soonest_from-le_each now best (suc i) (t ∷ ts) h p =
    soonest_from-le_each now (sooner now best t) i ts (omega arith) p

-- The answer is never a time past: it is the zero time, or lies ahead of `now`.
pub reset_deadline-after :
    (s : AccountStatus) (now : ℕ) → (reset_deadline s now ≡ 0) ⊎ (now < reset_deadline s now)
unfolding reset_deadline
reset_deadline-after s now = ground (
  arith,
  soonest-after (candidates s) now,
  soonest-after (s.daily_reset ∷ s.weekly_reset ∷ []) now,
)

-- The window reports a percentage that is not 0.
abbrev pub IsAbove : Option ℕ → Type 0
IsAbove percent = (n : ℕ) × (percent ≡ some n) × (0 < n)

-- One window that reports a percentage above 0 is enough, where the other is not at 0: the answer is
-- the zero time, whatever the unnamed counters read.
pub reset_deadline_healthy :
    (s : AccountStatus) (now : ℕ)
    → IsAbove s.daily_remaining_percent ⊎ IsAbove s.weekly_remaining_percent
    → s.daily_remaining_percent ≢ some 0
    → s.weekly_remaining_percent ≢ some 0
    → reset_deadline s now ≡ 0
unfolding reset_deadline is_empty unnamed_empty named
reset_deadline_healthy s now (inl (n, e, h)) d w = ground (arith, e, h, w)
reset_deadline_healthy s now (inr (n, e, h)) d w = ground (arith, e, h, d)

-- With the daily window alone at 0 and its reset ahead, the answer is that reset.
pub reset_deadline_daily :
    (s : AccountStatus) (now : ℕ)
    → s.daily_remaining_percent ≡ some 0
    → is_zero s.weekly_remaining_percent ≡ false
    → now < s.daily_reset
    → reset_deadline s now ≡ s.daily_reset
unfolding reset_deadline is_empty unnamed_empty named candidates soonest soonest_from
reset_deadline_daily s now d w h = ground arith
