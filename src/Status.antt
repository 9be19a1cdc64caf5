-- ===== src/Status.antt =====
-- internal/devin/status.go: when an exhausted account's quota refills. Times as in `Rotate`; a
-- percentage is read only for being 0, so it is a number.
pub mod Reset
mod Examples
use devin2proxy.Prelude.{
  ℕ, Bool, true, false, not, ◌||◌, ◌&&◌, Option, none, some, List, [], ◌∷◌, ◌++◌, ltb, ◌==◌,
  if◌then◌else◌, Bytes,
}

-- The fields that the pool reads, and the name and address that a listing shows.
pub record AccountStatus : Type 0 where
  pub name : Bytes
  pub email : Bytes
  pub daily_remaining_percent : Option ℕ
  pub weekly_remaining_percent : Option ℕ
  pub daily_reset : ℕ
  pub weekly_reset : ℕ
  pub plan_fields : List (ℕ × ℕ)

-- One round of the loop of `soonest`.
abbrev pub sooner : ℕ → ℕ → ℕ → ℕ
sooner now best t = if ltb now t && (best == 0 || ltb t best) then t else best

unfoldable pub soonest_from : ℕ → ℕ → List ℕ → ℕ
soonest_from now best [] = best
soonest_from now best (t ∷ ts) = soonest_from now (sooner now best t) ts

unfoldable pub soonest : List ℕ → ℕ → ℕ
unfolding soonest_from
soonest times now = soonest_from now 0 times

abbrev pub is_zero : Option ℕ → Bool
is_zero none = false
is_zero (some v) = v == 0

abbrev pub is_set : Option ℕ → Bool
is_set none = false
is_set (some v) = true

abbrev pub any_zero : List (ℕ × ℕ) → Bool
any_zero [] = false
any_zero ((n, v) ∷ fields) = v == 0 || any_zero fields

unfoldable pub named : AccountStatus → Bool
named s = is_set s.daily_remaining_percent || is_set s.weekly_remaining_percent

-- The loop over the plan's counters, whose order does not matter: it stops at the first zero.
unfoldable pub unnamed_empty : AccountStatus → Bool
unfolding named
unnamed_empty s = not (named s) && any_zero s.plan_fields

unfoldable pub candidates : AccountStatus → List ℕ
unfolding unnamed_empty
candidates s =
    (if is_zero s.daily_remaining_percent then s.daily_reset ∷ [] else [])
    ++ ((if is_zero s.weekly_remaining_percent then s.weekly_reset ∷ [] else [])
        ++ (if unnamed_empty s then s.daily_reset ∷ s.weekly_reset ∷ [] else []))

unfoldable pub is_empty : AccountStatus → Bool
unfolding unnamed_empty
is_empty s =
    is_zero s.daily_remaining_percent || is_zero s.weekly_remaining_percent || unnamed_empty s

unfoldable pub reset_deadline : AccountStatus → ℕ → ℕ
unfolding is_empty candidates soonest
reset_deadline s now =
    let best = soonest (candidates s) now in
    if not (is_empty s)
    then 0
    else if not (best == 0)
    then best
    else soonest (s.daily_reset ∷ s.weekly_reset ∷ []) now
