-- ===== src/Client/Waits.antt =====
-- internal/devin/client.go: how long a request waits before its next attempt. A `time.Duration` is an
-- `int64`, kept as its 64 bits; `sample n` is `retryJitter()` times `n`, cut off to an integer.
use devin2proxy.Prelude.{
  ℕ, zero, suc, ◌+◌, ◌-◌, ◌*◌, ◌/◌, ◌%◌, ◌^◌, Bool, ◌&&◌, Option, none, some, [], ltb, leb, ◌==◌,
  if◌then◌else◌, Bytes, bytes_eq, trim_space, atoi,
}

abbrev pub second : ℕ
second = 1000000000

abbrev pub retry_base_delay : ℕ
retry_base_delay = 300000000

abbrev pub max_retry_after : ℕ
max_retry_after = 15 * second

unfoldable pub jitter : (ℕ → ℕ) → ℕ → ℕ
jitter sample want = if want == 0 then 0 else want - want / 4 + sample (2 * (want / 4))

-- The loop of `retryDelay`.
unfoldable pub triple : ℕ → ℕ → ℕ
triple zero d = d
triple (suc rounds) d = triple rounds (d * 3)

unfoldable pub retry_delay : (ℕ → ℕ) → ℕ → ℕ
unfolding triple jitter
retry_delay sample attempt = jitter sample (triple (attempt - 2) retry_base_delay)

-- Whether the bits of an `int64` stand for a number below zero.
abbrev pub is_negative : ℕ → Bool
is_negative bits = leb (2 ^ 63) bits

-- `time.Duration(secs) * time.Second`, cut off to 64 bits, and its cap.
unfoldable pub capped_seconds : ℕ → ℕ
capped_seconds secs =
    let d = secs * second % 2 ^ 64 in
    if is_negative d then d else if ltb max_retry_after d then max_retry_after else d

-- `none` for a header that is not read.
unfoldable pub parse_retry_after : Bytes → Option ℕ
unfolding atoi capped_seconds
parse_retry_after v =
    let text = trim_space v in
    if bytes_eq text [] then none else elim (atoi text) [
      | none ↦ none
      | some (below_zero, secs) ↦
          if below_zero && ltb 0 secs then none else some (capped_seconds secs)
    ]
