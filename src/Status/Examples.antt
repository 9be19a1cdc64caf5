-- ===== src/Status/Examples.antt =====
-- Concrete runs of the theorems on the reset deadline.
use devin2proxy.Prelude.{◌<◌, ◌≤◌, ◌≡◌, ◌≢◌, ◌⊎◌, refl, inl, none, some, [], ◌∷◌, get_or, arith}
use devin2proxy.Status.{AccountStatus, soonest_from, reset_deadline}
use devin2proxy.Status.Reset.{soonest_from-le_each, reset_deadline-after, reset_deadline_healthy}

-- The daily quota is used up until 500, and the weekly one is not.
abbrev used_up : AccountStatus
used_up = record {
  name = [];
  email = [];
  daily_remaining_percent = some 0;
  weekly_remaining_percent = some 40;
  daily_reset = 500;
  weekly_reset = 900;
  plan_fields = [];
}

abbrev healthy : AccountStatus
healthy = record used_up {
  daily_remaining_percent = some 7;
  weekly_remaining_percent = none;
  plan_fields = (1, 0) ∷ [];
}

soonest_from-le_each_example :
    (soonest_from 100 0 (90 ∷ 500 ∷ 300 ∷ []) ≢ 0)
    × (soonest_from 100 0 (90 ∷ 500 ∷ 300 ∷ []) ≤ get_or (90 ∷ 500 ∷ 300 ∷ []) 2 0)
soonest_from-le_each_example =
    soonest_from-le_each 100 0 2 (90 ∷ 500 ∷ 300 ∷ []) (omega arith) (omega arith)

reset_deadline-after_example : (reset_deadline used_up 100 ≡ 0) ⊎ (100 < reset_deadline used_up 100)
reset_deadline-after_example = reset_deadline-after used_up 100

reset_deadline_healthy_example : reset_deadline healthy 100 ≡ 0
reset_deadline_healthy_example =
    reset_deadline_healthy healthy 100 (inl (7, refl, omega arith)) (λ e. ground (arith, e))
      (λ e. ground (arith, e))
