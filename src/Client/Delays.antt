-- ===== src/Client/Delays.antt =====
-- internal/devin/client.go: the bounds of a wait.
use Prim.Native.Nat.{ℕ, zero, suc}
use devin2proxy.Prelude.{
  ◌+◌, ◌-◌, ◌*◌, ◌/◌, ◌%◌, ◌^◌, ◌≤◌, ◌<◌, ◌≡◌, sym, ap, ◌∙◌, true, ◌&&◌, ◌⊎◌, inl, inr, subst, atoi,
  trim_space, bytes_eq, [], some, ltb, if◌then◌else◌, Bytes, arith, Bool-cases, Option-cases,
}
use native.Mathlib.Omega.{pow_step}
use native.Mathlib.Nat.{mul_assoc}
use devin2proxy.Client.Waits.{
  second, triple, retry_delay, retry_base_delay, max_retry_after, is_negative, capped_seconds,
  parse_retry_after,
}

triple-eq : (rounds d : ℕ) → triple rounds d ≡ d * 3 ^ rounds
unfolding triple
triple-eq zero d = omega arith
triple-eq (suc rounds) d =
    triple-eq rounds (d * 3)
    ∙ mul_assoc d 3 (3 ^ rounds)
    ∙ ap (λ t. d * t) (sym (pow_step 3 rounds))

-- The wait before attempt n is 300 ms tripled n - 2 times, a quarter of it more or less, where the
-- sample stays within what it is taken of.
pub retry_delay_bounds :
    (sample : ℕ → ℕ) (attempt : ℕ)
    → ((n : ℕ) → sample n ≤ n)
    → (300000000 * 3 ^ (attempt - 2)
        ≤ retry_delay sample attempt + 300000000 * 3 ^ (attempt - 2) / 4)
      × (retry_delay sample attempt
          ≤ 300000000 * 3 ^ (attempt - 2) + 300000000 * 3 ^ (attempt - 2) / 4)
unfolding retry_delay
retry_delay_bounds sample attempt fair =
    let want = 300000000 * 3 ^ (attempt - 2) in
    let e : triple (attempt - 2) retry_base_delay ≡ want =
      triple-eq (attempt - 2) retry_base_delay in
    rw e (ground (arith, fair (2 * (want / 4))), ground (arith, fair (2 * (want / 4))))

-- A header up to 9,223,372,036 seconds is read as that time, cut to fifteen seconds.
pub capped_seconds-eq :
    (secs : ℕ)
    → secs ≤ 9223372036
    → capped_seconds secs ≡ (if ltb 15 secs then 15 * second else secs * second)
unfolding capped_seconds
capped_seconds-eq secs h =
    let fits : secs * second % 2 ^ 64 ≡ secs * second = omega arith in
    rw fits (ground (arith, fits))

-- A `Retry-After` of 18,446,744,074 to 18,446,744,088 seconds overflows when it is turned into
-- nanoseconds: it is read as less than fifteen seconds, and not as the cap.
pub capped_seconds-wraps :
    (secs : ℕ)
    → 18446744074 ≤ secs
    → secs ≤ 18446744088
    → (capped_seconds secs < max_retry_after) × (capped_seconds secs + 2 ^ 64 ≡ secs * second)
unfolding capped_seconds
capped_seconds-wraps secs lo hi =
    let wraps : secs * second % 2 ^ 64 + 2 ^ 64 ≡ secs * second = omega arith in
    (ground (arith, wraps), ground (arith, wraps))

capped_seconds_bounds :
    (secs : ℕ)
    → (is_negative (capped_seconds secs) ≡ true) ⊎ (capped_seconds secs ≤ max_retry_after)
unfolding capped_seconds
capped_seconds_bounds secs = elim (Bool-cases (is_negative (secs * second % 2 ^ 64))) [
  | inl below ↦ inl (rw below below)
  | inr above ↦ inr (ground (arith, above))
]

-- Whatever the header holds, what is read from it as a signed number is at most fifteen seconds.
pub parse_retry_after_bounds :
    (v : Bytes) (d : ℕ) → parse_retry_after v ≡ some d → (is_negative d ≡ true) ⊎ (d ≤ 15 * second)
unfolding parse_retry_after
parse_retry_after_bounds v d h = elim (Bool-cases (bytes_eq (trim_space v) [])) [
  | inl empty ↦ absurd (ground (arith, h, empty))
  | inr text ↦ elim (Option-cases (atoi (trim_space v))) [
    | inl bad ↦ absurd (ground (arith, h, text, bad))
    | inr ((below_zero, secs), read) ↦ elim (Bool-cases (below_zero && ltb 0 secs)) [
      | inl negative ↦ absurd (ground (arith, h, text, read, negative))
      | inr plain ↦
          let same : capped_seconds secs ≡ d = ground (arith, h, text, read, plain) in
          subst (λ x. (is_negative x ≡ true) ⊎ (x ≤ max_retry_after)) same
            (capped_seconds_bounds secs)
    ]
  ]
]
