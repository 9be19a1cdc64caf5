-- ===== src/Rotate/Examples.antt =====
-- Runs of the cursor, and its theorems at concrete inputs.
use devin2proxy.Prelude.{ℕ, ◌+◌, ◌<◌, ◌≡◌, refl, inr, some, none, arith, [], ◌∷◌, length, get_elem?}
use devin2proxy.Rotate.{RotationCursor, deadline, wrap_next, pick, remove_slot, new_rotation_cursor}
use devin2proxy.Rotate.Pick.{Picked, pick-Picked}
use devin2proxy.Rotate.Deadlines.{remove_slot_lem}
use devin2proxy.Rotate.Fair.{serve, serve-fair}

-- Slots 0 and 2 are warm at 10; the walk stands at 1.
abbrev three : RotationCursor
three = record { next = 1; cooling = 5 ∷ 50 ∷ 0 ∷ [] }

abbrev all_cooling : RotationCursor
all_cooling = record { next = 2; cooling = 70 ∷ 50 ∷ 60 ∷ [] }

pick_skips_cooling : pick three 10 ≡ (some 2, record three { next = 0 })
unfolding pick
pick_skips_cooling = refl

pick_soonest : pick all_cooling 10 ≡ (some 1, record all_cooling { next = 2 })
unfolding pick
pick_soonest = refl

pick_of_empty : (pick (new_rotation_cursor 0) 10).0 ≡ none
unfolding pick new_rotation_cursor
pick_of_empty = refl

-- A cursor left past the end by nothing in the code is brought back before the fallback reads it.
remove_last :
    remove_slot (record { next = 2; cooling = 70 ∷ 50 ∷ 60 ∷ [] }) 2
    ≡ record { next = 0; cooling = 70 ∷ 50 ∷ [] }
unfolding remove_slot
remove_last = refl

pick-Picked_example : Picked (wrap_next three) 10 (pick three 10)
pick-Picked_example = pick-Picked three 10 (omega arith)

serve-fair_example :
    (m : ℕ) × (m < 3) × (get_elem? (serve three (60 ∷ 61 ∷ 62 ∷ [])) m ≡ some (some 1))
serve-fair_example =
    serve-fair three (60 ∷ 61 ∷ 62 ∷ []) 1 (omega arith) (omega arith) refl (omega arith)

remove_slot_lem_example :
    (length (remove_slot three 0).cooling + 1 ≡ 3)
    × (deadline (remove_slot three 0) 0 ≡ 50)
    × ((remove_slot three 0).next ≡ 0)
remove_slot_lem_example =
    remove_slot_lem three 0 1 (record { at = inr (omega arith) }) (omega arith) (λ e. omega arith)
      (λ e. omega arith)
