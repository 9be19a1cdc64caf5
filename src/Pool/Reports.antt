-- ===== src/Pool/Reports.antt =====
-- The reports and status calls keep the invariant, and so does every history of calls.
use devin2proxy.Prelude.{
  ℕ, zero, suc, ◌+◌, refl, inl, inr, Bool, true, false, Option, arith, length, if◌then◌else◌, set,
  Option-cases, length-set,
}
use devin2proxy.Status.{AccountStatus, reset_deadline}
use devin2proxy.Rotate
use devin2proxy.Rotate.{RotationCursor}
use devin2proxy.Rotate.Deadlines.{
  SameShape, SameShape-IsPlaced, cool_off-SameShape, clamp_cooling-SameShape,
  extend_cooling-SameShape,
}
use devin2proxy.Pool.Accounts.{Pool, remember, index_locked, max_quota_cool, cool_rate_limited}
use devin2proxy.Pool.Cooldowns.{
  refresh_quota, begin_refresh, record_refusal, clamp_all, quota_held_locked, clear_cooldown,
  clear_slot, hold_slot, apply_quota, release_busy,
}
use devin2proxy.Pool.Invariant.{IsConsistent}
use devin2proxy.Pool.Consistent.{same_slots}

pub clamp_all-SameShape :
    (held : ℕ → Bool) (c : RotationCursor) (until rounds i : ℕ)
    → SameShape c (clamp_all held c until rounds i)
unfolding clamp_all
clamp_all-SameShape held c until zero i = (refl, refl)
clamp_all-SameShape held c until (suc rounds) i =
    let c' = if held i then c else (Rotate.clamp_cooling c i until).1 in
    ground
      (arith, clamp_all-SameShape held c' until rounds (i + 1), clamp_cooling-SameShape c i until)

module _ (p : Pool) (v : IsConsistent p) where
  -- A new cursor of the same shape.
  reshaped : (rot : RotationCursor) → SameShape p.rot rot → IsConsistent (record p { rot = rot })
  reshaped rot s =
      same_slots p v rot p.busy p.quota_cool_until s.1 (SameShape-IsPlaced p.rot rot s v.placed)
        refl refl

  pub record_refusal-IsConsistent :
      (idx cool now : ℕ) → IsConsistent (record_refusal p idx cool now)
  unfolding record_refusal
  record_refusal-IsConsistent idx cool now = reshaped (record_refusal p idx cool now).rot (
      ground (
        arith,
        cool_off-SameShape p.rot idx now (now + cool),
        clamp_all-SameShape (λ i. quota_held_locked p i now)
            (Rotate.cool_off p.rot idx now (now + cool)).1 (now + cool_rate_limited)
            (length p.entries) 0,
      ))

  marked : (idx : ℕ) (b : Bool) → IsConsistent (record p { busy = set p.busy idx b })
  marked idx b =
      same_slots p v p.rot (set p.busy idx b) p.quota_cool_until refl v.placed
        (length-set p.busy idx b) refl

  begin_refresh-IsConsistent : (idx now : ℕ) → IsConsistent (begin_refresh p idx now).1
  unfolding begin_refresh
  begin_refresh-IsConsistent idx now = ground (arith, v, marked idx true)

  pub refresh_quota-IsConsistent :
      (creds : Option ℕ) (now : ℕ) → IsConsistent (refresh_quota p creds now).1
  unfolding refresh_quota
  refresh_quota-IsConsistent creds now = elim (Option-cases (index_locked p creds)) [
    | inl gone ↦ rw (gone, refresh_quota) v
    | inr (idx, held) ↦ rw (held, refresh_quota) (begin_refresh-IsConsistent idx now)
  ]

  clear_slot-IsConsistent : (idx now : ℕ) → IsConsistent (clear_slot p idx now)
  unfolding clear_slot
  clear_slot-IsConsistent idx now =
      ground (arith, length-set p.rot.cooling idx 0, length-set p.quota_cool_until idx 0)

  pub clear_cooldown-IsConsistent :
      (creds : Option ℕ) (now : ℕ) → IsConsistent (clear_cooldown p creds now).1
  unfolding clear_cooldown
  clear_cooldown-IsConsistent creds now = elim (Option-cases (index_locked p creds)) [
    | inl gone ↦ rw (gone, clear_cooldown) v
    | inr (idx, held) ↦ rw (held, clear_cooldown) (clear_slot-IsConsistent idx now)
  ]

  hold_slot-IsConsistent : (idx now until : ℕ) → IsConsistent (hold_slot p idx now until)
  unfolding hold_slot
  hold_slot-IsConsistent idx now until = ground (
    arith,
    extend_cooling-SameShape p.rot idx now until,
    SameShape-IsPlaced p.rot (Rotate.extend_cooling p.rot idx now until).1,
    length-set p.quota_cool_until idx until,
  )

  pub apply_quota-IsConsistent :
      (creds : Option ℕ) (st : AccountStatus) (now : ℕ) → IsConsistent (apply_quota p creds st now)
  unfolding apply_quota
  apply_quota-IsConsistent creds st now = elim (Option-cases (index_locked p creds)) [
    | inl gone ↦ rw (gone, apply_quota) v
    | inr (idx, held) ↦
        rw (held, apply_quota)
          (ground (
            arith,
            v,
            hold_slot-IsConsistent idx now (now + max_quota_cool),
            hold_slot-IsConsistent idx now (reset_deadline st now),
          ))
  ]

  pub release_busy-IsConsistent : (creds : Option ℕ) → IsConsistent (release_busy p creds)
  unfolding release_busy
  release_busy-IsConsistent creds = elim (Option-cases (index_locked p creds)) [
    | inl gone ↦ rw (gone, release_busy) v
    | inr (idx, held) ↦ rw (held, release_busy) (marked idx false)
  ]

  pub remember-IsConsistent :
      (creds : Option ℕ) (st : AccountStatus) → IsConsistent (remember p creds st)
  unfolding remember
  remember-IsConsistent creds st = elim (Option-cases (index_locked p creds)) [
    | inl gone ↦ rw (gone, remember) v
    | inr (idx, held) ↦ rw (held, remember) (ground arith)
  ]
