-- ===== src/Client/Examples.antt =====
-- The client's loop and streams at concrete inputs.
use devin2proxy.Prelude.{
  ℕ, zero, suc, ◌+◌, ◌*◌, ◌/◌, ◌^◌, ◌≤◌, ◌<◌, ◌≡◌, refl, inr, true, false, none, [], ◌∷◌, codes,
  trim, arith, ltb, if◌then◌else◌,
}
use devin2proxy.Connect.{Frame, big_endian}
use devin2proxy.Client.Waits.{second, max_retry_after, capped_seconds}
use devin2proxy.Client.Attempts.{
  Client, Try, broke, answered, attempts, rate_limit_budget, post_stream,
}
use devin2proxy.Client.Stream.{plain_error, eof_error, recv}
use devin2proxy.Client.Reach.{IsDead, IsStreaming, post_stream-streams}
use devin2proxy.Client.Sends.{Ended}
use devin2proxy.Client.Bounds.{post_stream-Ended, attempts_bounds}
use devin2proxy.Client.Delays.{capped_seconds-wraps}
use devin2proxy.Client.Frames.{IsSkipped, before, reading, recv-cut}

-- A client without routes or a budget of its own.
abbrev client : Client
client = record { egress = none; rate_limit_retries = 0; budget_now = none; taken = 2 }

-- The first attempt dies, the second is refused, the third answered.
abbrev world : ℕ → Try
world n = record {
  waited = true;
  builds = true;
  slot = true;
  picked_at = 0;
  reported_at = 0;
  gave_up = false;
  trip =
      if ltb n 2
      then broke plain_error
      else if ltb n 3
      then answered 429 [] (codes "2")
      else answered 200 [] [];
}

abbrev half : ℕ → ℕ
half n = n / 2

third_time : (post_stream half world client).1.delays ≡ 2 * second ∷ []
unfolding post_stream trim
third_time = refl

post_stream-Ended_example :
    Ended 2 3 3 (post_stream half world client).0 (post_stream half world client).1
unfolding attempts rate_limit_budget
post_stream-Ended_example = post_stream-Ended half world client

abbrev good_second : ℕ → Try
good_second n = record (world n) {
  trip = if ltb n 2 then broke plain_error else answered 200 [] [];
}

post_stream-streams_example : IsStreaming [] (post_stream half good_second client)
post_stream-streams_example =
    post_stream-streams half good_second client 1 (omega (arith, (attempts_bounds client).0)) dead
      (record { builds = refl; slot = refl; body = []; header = []; good = refl })
  where
    dead : (i : ℕ) → i < 1 → IsDead (good_second (1 + i))
    dead zero h = record {
      builds = refl;
      slot = refl;
      patient = refl;
      why = plain_error;
      broken = refl;
    }
    dead (suc i) h = absurd (omega arith)

halved : (n : ℕ) → half n ≤ n
halved n = omega arith

capped_seconds-wraps_example :
    (capped_seconds 18446744074 < max_retry_after)
    × (capped_seconds 18446744074 + 2 ^ 64 ≡ 18446744074 * second)
capped_seconds-wraps_example = capped_seconds-wraps 18446744074 (omega arith) (omega arith)

abbrev strange : Frame
strange = record { flag = 1; payload = codes "x" }

strange-IsSkipped : IsSkipped strange
strange-IsSkipped = record { small = omega arith; goes_on = refl; no_data = refl }

recv-cut_example :
    (recv (λ b. none) (reading none false (before (strange ∷ []) (0 ∷ big_endian 7)))).0
    ≡ inr eof_error
recv-cut_example =
    recv-cut (λ b. none) (strange ∷ []) false 0 7 (strange-IsSkipped, tt) (omega arith)
      (omega arith)
