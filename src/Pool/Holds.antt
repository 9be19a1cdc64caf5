-- ===== src/Pool/Holds.antt =====
-- Quota evidence: what a status call can do to a cooldown, and how many are asked at once.
use Prim.Native.Nat.{max, min}
use devin2proxy.Prelude.{
  ℕ, ◌+◌, ◌<◌, ◌≡◌, ◌&&◌, some, arith, length, ltb, ◌==◌, if◌then◌else◌, get_or, get_or-set_self,
  get_or-set_ne,
}
use devin2proxy.Status.{AccountStatus, reset_deadline}
use devin2proxy.Rotate.{deadline}
use devin2proxy.Rotate.Deadlines.{extend_cooling_lem}
use devin2proxy.Pool.Accounts.{Pool, index_locked, max_quota_cool}
use devin2proxy.Pool.Cooldowns.{hold_slot, apply_quota, clear_slot, clear_cooldown}
use devin2proxy.Pool.Invariant.{IsConsistent}

-- What `applyQuota` makes of the account's reset.
abbrev pub hold_until : AccountStatus → ℕ → ℕ
hold_until st now = min (reset_deadline st now) (now + max_quota_cool)

hold_slot-deadline :
    (p : Pool) (idx now until j : ℕ)
    → IsConsistent p
    → idx < length p.entries
    → deadline (hold_slot p idx now until).rot j ≡ (
        if (j == idx) && ltb now (deadline p.rot idx)
        then max (deadline p.rot idx) until
        else deadline p.rot j)
unfolding hold_slot
hold_slot-deadline p idx now until j v h =
    ground (arith, v.slots, extend_cooling_lem p.rot idx j now until)

-- A status call can only lengthen a cooldown that a refusal has earned: it moves the deadline of
-- that one account, only while the account is cooling, only outwards, and to no more than twelve
-- hours from now.
pub apply_quota-deadline :
    (p : Pool) (c idx : ℕ) (st : AccountStatus) (now j : ℕ)
    → IsConsistent p
    → idx < length p.entries
    → index_locked p (some c) ≡ some idx
    → deadline (apply_quota p (some c) st now).rot j ≡ (
        if (j == idx) && ltb now (deadline p.rot idx)
        then max (deadline p.rot idx) (hold_until st now)
        else deadline p.rot j)
unfolding apply_quota
apply_quota-deadline p c idx st now j v h held =
    rw (held, apply_quota)
      (ground (
        arith,
        hold_slot-deadline p idx now (reset_deadline st now) j v h,
        hold_slot-deadline p idx now (now + max_quota_cool) j v h,
      ))

-- After a probe that succeeded the account is warm and free of its hold, and every other account is
-- as it was.
pub clear_cooldown_lem :
    (p : Pool) (c idx now j : ℕ)
    → IsConsistent p
    → idx < length p.entries
    → index_locked p (some c) ≡ some idx
    → let q = (clear_cooldown p (some c) now).1 in
      (deadline q.rot j
        ≡ (if (j == idx) && ltb now (deadline p.rot idx) then 0 else deadline p.rot j))
      × (get_or q.quota_cool_until j 0 ≡ (
          if (j == idx) && ltb now (get_or p.quota_cool_until idx 0)
          then 0
          else get_or p.quota_cool_until j 0))
unfolding clear_cooldown clear_slot
clear_cooldown_lem p c idx now j v h held =
    rw (held, clear_cooldown)
      (ground (
        arith,
        v.slots,
        v.quota_slots,
        get_or-set_self p.rot.cooling idx 0 0,
        get_or-set_ne p.rot.cooling idx j 0 0,
        get_or-set_self p.quota_cool_until idx 0 0,
        get_or-set_ne p.quota_cool_until idx j 0 0,
      ))
