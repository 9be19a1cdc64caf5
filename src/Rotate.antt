-- ===== src/Rotate.antt =====
-- internal/devin/rotate.go: the cursor that both pools rotate by. A time is a number of nanoseconds
-- and the zero `time.Time` is 0, so `now.Before(t)` is `ltb now t`; the result -1 of `pick` is
-- `none`. The callers hold the lock for each call, so a call is one step.
pub mod Walk
pub mod Pick
pub mod Deadlines
pub mod Fair
mod Examples
use devin2proxy.Prelude.{
  ℕ, zero, suc, ◌+◌, ◌-◌, ◌%◌, Bool, true, false, not, ◌||◌, Option, none, some, List, [], ◌∷◌,
  ◌++◌, ltb, leb, ◌==◌, if◌then◌else◌, length, get_or, set, remove_at, replicate,
}

pub record RotationCursor : Type 0 where
  pub next : ℕ
  pub cooling : List ℕ

unfoldable pub new_rotation_cursor : ℕ → RotationCursor
new_rotation_cursor n = record { next = 0; cooling = replicate n 0 }

unfoldable pub append_slot : RotationCursor → RotationCursor
append_slot c = record c { cooling = c.cooling ++ (0 ∷ []) }

-- The two adjustments of `next` after the slot is gone.
unfoldable pub drop_slot : RotationCursor → ℕ → RotationCursor
drop_slot c i =
    let rest = remove_at c.cooling i in
    let moved = if ltb i c.next then c.next - 1 else c.next in
    record { next = if leb (length rest) moved then 0 else moved; cooling = rest }

unfoldable pub remove_slot : RotationCursor → ℕ → RotationCursor
unfolding drop_slot
remove_slot c i = if leb (length c.cooling) i then c else drop_slot c i

-- `c.cooling[i]`; every index that the code forms is in range (see `Pick`).
abbrev pub deadline : RotationCursor → ℕ → ℕ
deadline c i = get_or c.cooling i 0

-- `(c.next + i) % n`
abbrev pub slot : RotationCursor → ℕ → ℕ
slot c i = (c.next + i) % length c.cooling

-- The first loop of `pick` from step `i` on, with `rounds` steps left.
unfoldable pub first_warm : RotationCursor → ℕ → ℕ → ℕ → Option ℕ
first_warm c now zero i = none
first_warm c now (suc rounds) i =
    let rest = first_warm c now rounds (i + 1) in
    if ltb now (deadline c (slot c i)) then rest else some (slot c i)

-- The second loop: the soonest deadline among `best` and the steps that are left.
unfoldable pub soonest_slot : RotationCursor → ℕ → ℕ → ℕ → ℕ
soonest_slot c zero i best = best
soonest_slot c (suc rounds) i best =
    soonest_slot c rounds (i + 1)
      (if ltb (deadline c (slot c i)) (deadline c best) then slot c i else best)

abbrev pub hand_out : RotationCursor → ℕ → Option ℕ × RotationCursor
hand_out c idx = (some idx, record c { next = (idx + 1) % length c.cooling })

-- The belt at the head of `pick`.
abbrev pub wrap_next : RotationCursor → RotationCursor
wrap_next c = if leb (length c.cooling) c.next then record c { next = 0 } else c

unfoldable pub pick_from : RotationCursor → ℕ → Option ℕ × RotationCursor
unfolding first_warm soonest_slot
pick_from c now = elim (first_warm c now (length c.cooling) 0) [
  | some idx ↦ hand_out c idx
  | none ↦ hand_out c (soonest_slot c (length c.cooling - 1) 1 c.next)
]

unfoldable pub pick : RotationCursor → ℕ → Option ℕ × RotationCursor
unfolding pick_from
pick c now = if length c.cooling == 0 then (none, c) else pick_from (wrap_next c) now

unfoldable pub count_warm : ℕ → List ℕ → ℕ
count_warm now [] = 0
count_warm now (t ∷ ts) = let rest = count_warm now ts in if ltb now t then rest else rest + 1

unfoldable pub available_locked : RotationCursor → ℕ → ℕ
unfolding count_warm
available_locked c now = count_warm now c.cooling

unfoldable pub cool_off : RotationCursor → ℕ → ℕ → ℕ → Bool × RotationCursor
cool_off c idx now until = (
  ltb now (deadline c idx),
  if ltb (deadline c idx) until then record c { cooling = set c.cooling idx until } else c,
)

unfoldable pub clamp_cooling : RotationCursor → ℕ → ℕ → Bool × RotationCursor
clamp_cooling c idx until =
    if leb (length c.cooling) idx || not (ltb until (deadline c idx))
    then (false, c)
    else (true, record c { cooling = set c.cooling idx until })

unfoldable pub extend_cooling : RotationCursor → ℕ → ℕ → ℕ → Bool × RotationCursor
extend_cooling c idx now until =
    if leb (length c.cooling) idx
      || not (ltb now (deadline c idx))
      || not (ltb (deadline c idx) until)
    then (false, c)
    else (true, record c { cooling = set c.cooling idx until })
