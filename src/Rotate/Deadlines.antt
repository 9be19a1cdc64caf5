-- ===== src/Rotate/Deadlines.antt =====
-- What each report does to the deadlines, and that the operations keep the cursor in its range.
use Prim.Native.Nat.{max, min}
use devin2proxy.Prelude.{
  refl, ap, remove_at, zero, suc, ◌==◌, ◌&&◌, ℕ, zero, suc, ◌+◌, ◌-◌, ◌≤◌, ◌<◌, ◌≡◌, ◌≢◌, ◌⊎◌,
  arith, ltb, List, [], ◌∷◌, length, get_or, length-set, length-append, length-remove_at,
  get_or-set_self, get_or-set_ne, if◌then◌else◌,
}
use devin2proxy.Rotate.{
  RotationCursor, deadline, new_rotation_cursor, append_slot, remove_slot, cool_off, clamp_cooling,
  extend_cooling, count_warm,
}

-- `next` names a slot, or is 0 while there is none.
pub record IsPlaced (c : RotationCursor) : Type 0 where
  pub at : (c.next ≡ 0) ⊎ (c.next < length c.cooling)

pub new_rotation_cursor-IsPlaced : (n : ℕ) → IsPlaced (new_rotation_cursor n)
unfolding new_rotation_cursor
new_rotation_cursor-IsPlaced n = ground arith

pub append_slot-IsPlaced : (c : RotationCursor) → IsPlaced c → IsPlaced (append_slot c)
unfolding append_slot
append_slot-IsPlaced c v = ground (arith, length-append c.cooling (0 ∷ []))

pub remove_slot-IsPlaced : (c : RotationCursor) (i : ℕ) → IsPlaced c → IsPlaced (remove_slot c i)
unfolding remove_slot
remove_slot-IsPlaced c i v = ground (arith, length-remove_at c.cooling i)

-- The index that slot `j` has once slot `i` is gone.
abbrev pub survivor : ℕ → ℕ → ℕ
survivor i j = if ltb i j then j - 1 else j

survivor-zero : (j : ℕ) → survivor 0 (suc j) ≡ j
survivor-zero j = ground arith

survivor_below : (i : ℕ) → survivor (suc i) 0 ≡ 0
survivor_below i = ground arith

survivor-suc : (i j : ℕ) → survivor (suc i) (suc j) ≡ suc (survivor i j)
survivor-suc i j = ground arith

-- What stood at `j` stands at its new index.
pub get_or-survivor {ℓ} :
    {A : Type ℓ} (xs : List A) (i j : ℕ) (d : A)
    → j ≢ i
    → get_or (remove_at xs i) (survivor i j) d ≡ get_or xs j d
get_or-survivor [] i j d h = refl
get_or-survivor (x ∷ xs) zero zero d h = absurd (h refl)
get_or-survivor (x ∷ xs) zero (suc j) d h = rw survivor-zero
get_or-survivor (x ∷ xs) (suc i) zero d h = rw survivor_below
get_or-survivor (x ∷ xs) (suc i) (suc j) d h =
    rw survivor-suc (get_or-survivor xs i j d (λ e. h (ap suc e)))

pub remove_slot-deadline :
    (c : RotationCursor) (i j : ℕ)
    → i < length c.cooling
    → j ≢ i
    → deadline (remove_slot c i) (survivor i j) ≡ deadline c j
unfolding remove_slot
remove_slot-deadline c i j h ne = ground (arith, get_or-survivor c.cooling i j 0)

-- Every other slot keeps its deadline under its new index, one slot is gone, and a position that
-- did not name the removed slot still names the same one.
pub remove_slot_lem :
    (c : RotationCursor) (i j : ℕ)
    → IsPlaced c
    → i < length c.cooling
    → j ≢ i
    → c.next ≢ i
    → (length (remove_slot c i).cooling + 1 ≡ length c.cooling)
      × (deadline (remove_slot c i) (survivor i j) ≡ deadline c j)
      × ((remove_slot c i).next ≡ survivor i c.next)
unfolding remove_slot
remove_slot_lem c i j v h ne apart = (
  ground (arith, length-remove_at c.cooling i),
  remove_slot-deadline c i j h ne,
  ground (arith, length-remove_at c.cooling i),
)

-- A report never shortens a cooldown: the slot's deadline becomes the later of the two, no other
-- slot changes, and the answer says whether the slot was cooling before.
pub cool_off_lem :
    (c : RotationCursor) (idx j now until : ℕ)
    → idx < length c.cooling
    → ((cool_off c idx now until).0 ≡ ltb now (deadline c idx))
      × (deadline (cool_off c idx now until).1 j
          ≡ (if j == idx then max (deadline c idx) until else deadline c j))
      × (length (cool_off c idx now until).1.cooling ≡ length c.cooling)
unfolding cool_off
cool_off_lem c idx j now until h = ground (
  arith,
  get_or-set_self c.cooling idx until 0,
  get_or-set_ne c.cooling idx j until 0,
  length-set c.cooling idx until,
)

-- `clampCooling` only ever brings a deadline forward, to `until`; no other slot changes.
pub clamp_cooling_lem :
    (c : RotationCursor) (idx j until : ℕ)
    → idx < length c.cooling
    → (deadline (clamp_cooling c idx until).1 j
        ≡ (if j == idx then min (deadline c idx) until else deadline c j))
      × ((clamp_cooling c idx until).0 ≡ ltb until (deadline c idx))
      × (length (clamp_cooling c idx until).1.cooling ≡ length c.cooling)
unfolding clamp_cooling
clamp_cooling_lem c idx j until h = ground (
  arith,
  get_or-set_self c.cooling idx until 0,
  get_or-set_ne c.cooling idx j until 0,
  length-set c.cooling idx until,
)

-- `extendCooling` moves a deadline out only, and only that of a slot that is still cooling: a warm
-- slot, any other slot, and a deadline at or past `until` stay.
pub extend_cooling_lem :
    (c : RotationCursor) (idx j now until : ℕ)
    → idx < length c.cooling
    → (deadline (extend_cooling c idx now until).1 j ≡ (
        if (j == idx) && ltb now (deadline c idx)
        then max (deadline c idx) until
        else deadline c j))
      × ((extend_cooling c idx now until).0
          ≡ (ltb now (deadline c idx) && ltb (deadline c idx) until))
      × (length (extend_cooling c idx now until).1.cooling ≡ length c.cooling)
unfolding extend_cooling
extend_cooling_lem c idx j now until h = ground (
  arith,
  get_or-set_self c.cooling idx until 0,
  get_or-set_ne c.cooling idx j until 0,
  length-set c.cooling idx until,
)

-- `availableLocked` is 0 exactly when every slot is cooling.
pub count_warm-zero :
    (now : ℕ) (ts : List ℕ) (i : ℕ) → count_warm now ts ≡ 0 → i < length ts → now < get_or ts i 0
unfolding count_warm
count_warm-zero now [] i e h = absurd (omega arith)
count_warm-zero now (t ∷ ts) zero e h = ground arith
count_warm-zero now (t ∷ ts) (suc i) e h = count_warm-zero now ts i (ground arith) (omega arith)

pub count_warm-le : (now : ℕ) (ts : List ℕ) → count_warm now ts ≤ length ts
unfolding count_warm
count_warm-le now [] = omega arith
count_warm-le now (t ∷ ts) = ground (arith, count_warm-le now ts)

pub count_warm-pos :
    (now : ℕ) (ts : List ℕ) (i : ℕ) → i < length ts → get_or ts i 0 ≤ now → 0 < count_warm now ts
unfolding count_warm
count_warm-pos now [] i h w = absurd (omega arith)
count_warm-pos now (t ∷ ts) zero h w = ground arith
count_warm-pos now (t ∷ ts) (suc i) h w = ground (arith, count_warm-pos now ts i (omega arith) w)

-- A report leaves the slots and the walk position as they are.
abbrev pub SameShape : RotationCursor → RotationCursor → Type 0
SameShape c d = (d.next ≡ c.next) × (length d.cooling ≡ length c.cooling)

pub cool_off-SameShape :
    (c : RotationCursor) (idx now until : ℕ) → SameShape c (cool_off c idx now until).1
unfolding cool_off
cool_off-SameShape c idx now until = ground (arith, length-set c.cooling idx until)

pub clamp_cooling-SameShape :
    (c : RotationCursor) (idx until : ℕ) → SameShape c (clamp_cooling c idx until).1
unfolding clamp_cooling
clamp_cooling-SameShape c idx until = ground (arith, length-set c.cooling idx until)

pub extend_cooling-SameShape :
    (c : RotationCursor) (idx now until : ℕ) → SameShape c (extend_cooling c idx now until).1
unfolding extend_cooling
extend_cooling-SameShape c idx now until = ground (arith, length-set c.cooling idx until)

pub SameShape-IsPlaced : (c d : RotationCursor) → SameShape c d → IsPlaced c → IsPlaced d
SameShape-IsPlaced c d s v = ground arith
