-- ===== src/Dashboard/Ladder.antt =====
-- internal/dashboard/auth.go: how long a ban is, and what a history of failures costs.
use Prim.Native.Nat.{ℕ, zero, suc}
use devin2proxy.Prelude.{◌-◌, ◌*◌, ◌^◌, ◌≤◌, ◌<◌, ◌≡◌, sym, ◌∙◌, ap, ltb, leb, if◌then◌else◌, arith}
use devin2proxy.Dashboard.Store.{second}
use devin2proxy.Dashboard.Bans.{first_ban, max_ban, double_ban, ban_duration}
use native.Mathlib.Omega.{pow_step}
use native.Mathlib.Nat.{mul_assoc}

abbrev pub min : ℕ → ℕ → ℕ
min a b = if leb a b then a else b

doubled : (ban k : ℕ) → ban * 2 ^ suc k ≡ ban * 2 * 2 ^ k
doubled ban k = ap (λ t. ban * t) (pow_step 2 k) ∙ sym (mul_assoc ban 2 (2 ^ k))

grows : (ban k : ℕ) → ban ≤ ban * 2 ^ k
grows ban zero = omega arith
grows ban (suc k) = omega (arith, doubled ban k, grows ban k)

longer : (strikes : ℕ) → 60 * second * 2 ^ (strikes - 3) ≤ 60 * second * 2 ^ (suc strikes - 3)
longer zero = omega arith
longer (suc zero) = omega arith
longer (suc (suc zero)) = omega arith
longer (suc (suc (suc k))) =
    let here : suc (suc (suc k)) - 3 ≡ k = omega arith in
    let next : suc (suc (suc (suc k))) - 3 ≡ suc k = omega arith in
    rw (here, next) (omega (arith, pow_step 2 k))

double_ban-eq-min :
    (rounds ban : ℕ) → ban < max_ban → double_ban rounds ban ≡ min (ban * 2 ^ rounds) max_ban
unfolding double_ban
double_ban-eq-min zero ban h = ground arith
double_ban-eq-min (suc rounds) ban h =
    let step : ban * 2 ^ suc rounds ≡ ban * 2 * 2 ^ rounds = doubled ban rounds in
    ground (arith, step, grows (ban * 2) rounds, double_ban-eq-min rounds (ban * 2))

-- Fewer than three failures cost nothing; the n-th costs a minute doubled n - 3 times, and a day at
-- most.
pub ban_duration-eq :
    (strikes : ℕ)
    → ban_duration strikes
      ≡ (if ltb strikes 3 then 0 else min (60 * second * 2 ^ (strikes - 3)) (24 * 60 * 60 * second))
unfolding ban_duration
ban_duration-eq strikes = ground (arith, double_ban-eq-min (strikes - 3) first_ban)

pub ban_duration_mono : (strikes : ℕ) → ban_duration strikes ≤ ban_duration (suc strikes)
ban_duration_mono strikes =
    ground (arith, ban_duration-eq strikes, ban_duration-eq (suc strikes), longer strikes)

pub ban_duration-le-max_ban : (strikes : ℕ) → ban_duration strikes ≤ max_ban
ban_duration-le-max_ban strikes = ground (arith, ban_duration-eq strikes)
