-- ===== src/Rotate/Fair.antt =====
-- Rotation over many requests: a slot that stays warm is served within one round.
use native.Mathlib.Nat.{mod-add-mod}
use native.Mathlib.Decide.{dec_lt}
use devin2proxy.Prelude.{
  ℕ, zero, suc, ◌+◌, ◌-◌, ◌%◌, ◌≤◌, ◌<◌, ◌≡◌, ap, ◌∙◌, Option, some, arith, List, [], ◌∷◌, length,
  get_elem?, All,
}
use devin2proxy.Rotate.{RotationCursor, deadline, slot, wrap_next, pick}
use devin2proxy.Rotate.Walk.{slot_onto}
use devin2proxy.Rotate.Pick.{Choice, first, soonest, Picked, pick-Picked}

-- Requests at the given times, with nothing reported between them.
pub serve : RotationCursor → List ℕ → List (Option ℕ)
serve c [] = []
serve c (now ∷ ts) = let (r, c') = pick c now in r ∷ serve c' ts

slot_step : (a k j n : ℕ) → (((a + k) % n + 1) % n + j) % n ≡ (a + (k + 1 + j)) % n
slot_step a k j n =
    rw (mod-add-mod (a + k) n 1, mod-add-mod (a + k + 1) n j) (ap (λ t. t % n) (omega arith))

wrap_next_id : (c : RotationCursor) → c.next < length c.cooling → wrap_next c ≡ c
wrap_next_id c h = ground arith

-- One request: the slot that `k` steps lead to is served, or it is closer afterwards.
data Closer (c : RotationCursor) (now i k : ℕ) : Type 0 where
  served : (pick c now).0 ≡ some i → Closer c now i k
  nearer :
      (k' : ℕ)
      → k' < k
      → (pick c now).1.cooling ≡ c.cooling
      → (pick c now).1.next < length c.cooling
      → slot (pick c now).1 k' ≡ i
      → Closer c now i k

Closer-of_choice :
    (c : RotationCursor) (now i k idx : ℕ)
    → k < length c.cooling
    → slot c k ≡ i
    → deadline c i ≤ now
    → pick c now ≡ (some idx, record c { next = (idx + 1) % length c.cooling })
    → Choice c now idx
    → Closer c now i k
Closer-of_choice c now i k idx hk e w p (first k' lt at _ before) = elim (dec_lt k' k) [
  | yes short ↦ nearer (k - (k' + 1)) (omega arith) (rw p) (rw p (omega arith)) (
      rw (p, at)
        (slot_step c.next k' (k - (k' + 1)) (length c.cooling)
          ∙ ap (λ t. (c.next + t) % length c.cooling) (omega arith)
          ∙ e))
  | no far ↦ elim (dec_lt k k') [
    | yes past ↦ absurd (omega (arith, before k past, ap (deadline c) e))
    | no same ↦ let e' : k' ≡ k = omega arith in served (rw (p, at, e', e))
  ]
]
Closer-of_choice c now i k idx hk e w p (soonest all _) =
    absurd (omega (arith, all (slot c k) (omega arith), ap (deadline c) e))

closer :
    (c : RotationCursor) (now i k : ℕ)
    → c.next < length c.cooling
    → k < length c.cooling
    → slot c k ≡ i
    → deadline c i ≤ now
    → Closer c now i k
closer c now i k placed hk e w =
    let picked : Picked c now (pick c now) =
      rw (wrap_next_id c placed) at (pick-Picked c now (omega arith)) in
    Closer-of_choice c now i k picked.idx hk e w picked.result picked.choice

-- A slot `k` steps ahead that is warm at each of more than `k` requests is served by one of the
-- first `k + 1`.
served_within :
    (fuel k i : ℕ) (c : RotationCursor) (ts : List ℕ)
    → k < fuel
    → k < length ts
    → c.next < length c.cooling
    → k < length c.cooling
    → slot c k ≡ i
    → All (λ t. deadline c i ≤ t) ts
    → (m : ℕ) × (m ≤ k) × (get_elem? (serve c ts) m ≡ some (some i))
unfolding serve
served_within zero k i c ts hf ht placed hk e ws = absurd (omega arith)
served_within (suc fuel) k i c [] hf ht placed hk e ws = absurd (omega arith)
served_within (suc fuel) k i c (now ∷ ts) hf ht placed hk e ws =
    elim (closer c now i k placed hk e ws.0) [
      | served p ↦ (0, omega arith, ap some p)
      | nearer k' lt same placed' e' ↦
          let (m, hm, r) =
            served_within fuel k' i (pick c now).1 ts (omega arith) (omega arith) (rw same placed')
              (rw same (omega arith)) e' (rw same ws.1) in
          (suc m, omega arith, r)
    ]

-- Round-robin: while no report intervenes, a slot that is warm at each of `n` successive requests
-- to `n` slots is served by one of them.
pub serve-fair :
    (c : RotationCursor) (ts : List ℕ) (i : ℕ)
    → c.next < length c.cooling
    → i < length c.cooling
    → length ts ≡ length c.cooling
    → All (λ t. deadline c i ≤ t) ts
    → (m : ℕ) × (m < length ts) × (get_elem? (serve c ts) m ≡ some (some i))
serve-fair c ts i placed hi same ws =
    let (k, hk, e) = slot_onto c placed i hi in
    let (m, hm, r) = served_within (suc k) k i c ts (omega arith) (omega arith) placed hk e ws in
    (m, omega arith, r)
