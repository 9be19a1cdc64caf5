-- ===== src/Client/Attempts.antt =====
-- internal/devin/client.go: `postStream`. What the network, the clock and the caller's context do in
-- attempt `n` is `world n`; `taken` counts the slots of `sem` that are held. The pool of routes is not
-- swapped during the call.
use devin2proxy.Prelude.{
  ℕ, zero, suc, ◌+◌, ◌-◌, Bool, true, false, ◌&&◌, not, Option, none, some, List, [], ◌∷◌, ltb, leb,
  ◌==◌, if◌then◌else◌, Bytes,
}
use devin2proxy.Errors.{GoError}
use devin2proxy.Egress.Routes
use devin2proxy.Egress.Routes.{Egress, EgressPool, with_route}
use devin2proxy.Client.Waits.{retry_delay, parse_retry_after, is_negative}

-- What `RoundTrip` gives: an error, or a status with its body and its Retry-After header.
pub data Trip : Type 0 where
  broke : GoError → Trip
  answered : ℕ → Bytes → Bytes → Trip

-- One attempt: whether the wait ended before the context, the request could be built and a slot was
-- free before the context ended, when the route was picked and when its failure was reported, what
-- came back, and whether the context had ended by then.
pub record Try : Type 0 where
  pub waited : Bool
  pub builds : Bool
  pub slot : Bool
  pub picked_at : ℕ
  pub reported_at : ℕ
  pub trip : Trip
  pub gave_up : Bool

-- `budget_now` is what `rateLimitRetriesFunc` would return, `none` if it is not set.
pub record Client : Type 0 where
  pub egress : Option EgressPool
  pub rate_limit_retries : ℕ
  pub budget_now : Option ℕ
  pub taken : ℕ

abbrev pub max_stream_attempts : ℕ
max_stream_attempts = 3

abbrev pub max_attempts_with_routes : ℕ
max_attempts_with_routes = 6

unfoldable pub attempts : Client → ℕ
unfolding Routes.len
attempts c =
    let routes = Routes.len c.egress in
    let n = if ltb max_stream_attempts (routes + 1) then routes + 1 else max_stream_attempts in
    if ltb max_attempts_with_routes n then max_attempts_with_routes else n

abbrev pub static_budget : Client → ℕ
static_budget c = if ltb 0 c.rate_limit_retries then c.rate_limit_retries else max_stream_attempts

unfoldable pub rate_limit_budget : Client → ℕ
rate_limit_budget c = elim c.budget_now [
  | none ↦ static_budget c
  | some n ↦ if ltb 0 n then n else static_budget c
]

-- The variables of the loop, with what it did: the waits and what came back, the last one first.
pub record Loop : Type 0 where
  pub client : Client
  pub last_err : Option GoError
  pub wait : Bool
  pub rate_limited : ℕ
  pub retry_after : ℕ
  pub delays : List ℕ
  pub trips : List Trip

pub data Outcome : Type 0 where
  -- a stream, through this route
  streaming : Option Egress → Outcome
  -- `ctx.Err()`, and the error of a request that cannot be built
  context_ended not_built : Outcome
  failed : Option GoError → Outcome

pub data Progress : Type 0 where
  stop : Outcome → Loop → Progress
  again : Loop → Progress

abbrev pub positive : ℕ → Bool
positive bits = ltb 0 bits && not (is_negative bits)

-- The wait at the head of the loop.
unfoldable pub wait_turn : (ℕ → ℕ) → ℕ → Loop → Loop
unfolding retry_delay
wait_turn sample attempt l =
    if ltb 1 attempt && l.wait
    then record l {
      delays =
          (if positive l.retry_after then l.retry_after else retry_delay sample attempt) ∷ l.delays;
      retry_after = if positive l.retry_after then 0 else l.retry_after;
      wait = true;
    }
    else record l { wait = true }

abbrev pub http_failure : ℕ → Bytes → GoError
http_failure status body = record {
  canceled = false;
  deadline_exceeded = false;
  os_deadline_exceeded = false;
  eof = false;
  http = some (record { status = status; body = body });
  connect = none;
  egress = none;
}

abbrev pub set_pool : Loop → Option EgressPool → Loop
set_pool l p = record l { client = record l.client { egress = p } }

-- `c.sem <- struct{}{}` and `<-c.sem`.
abbrev pub acquire : Loop → Loop
acquire l = record l { client = record l.client { taken = l.client.taken + 1 } }

abbrev pub release : Loop → Loop
release l = record l { client = record l.client { taken = l.client.taken - 1 } }

-- A transport failure, once the slot is released.
unfoldable pub after_break : Try → Option Egress → GoError → Loop → Progress
unfolding with_route Routes.report
after_break t route err l =
    if t.gave_up
    then stop (failed (some err)) l
    else again
        (record (set_pool l
          (Routes.report l.client.egress route (some (with_route err)) t.reported_at)) {
            last_err = some (with_route err);
            wait = false;
          })

-- An answer other than 200, once its body is read and the slot released.
unfoldable pub after_refusal : ℕ → Bytes → Bytes → Loop → Progress
unfolding rate_limit_budget parse_retry_after
after_refusal status body header l =
    let refused : Loop = record l { last_err = some (http_failure status body) } in
    if not (status == 429)
    then stop (failed refused.last_err) refused
    else if leb (rate_limit_budget l.client) (l.rate_limited + 1)
    then stop (failed refused.last_err) (record refused { rate_limited = l.rate_limited + 1 })
    else again (record refused {
      rate_limited = l.rate_limited + 1;
      retry_after = elim (parse_retry_after header) [ none ↦ l.retry_after | some d ↦ d ];
    })

unfoldable pub after_trip : Try → Option Egress → Trip → Loop → Progress
unfolding after_break after_refusal
after_trip t route (broke err) l = after_break t route err (release l)
after_trip t route (answered status body header) l =
    if status == 200 then stop (streaming route) l else after_refusal status body header (release l)

-- One request, from the pick of its route on; the slot is taken, and a stream keeps it.
unfoldable pub send : Try → Loop → Progress
unfolding Routes.next after_trip
send t l =
    let (route, pool) = Routes.next l.client.egress t.picked_at in
    after_trip t route t.trip (record (set_pool l pool) { trips = t.trip ∷ l.trips })

unfoldable pub attempt_once : (ℕ → ℕ) → Try → ℕ → Loop → Progress
unfolding wait_turn send
attempt_once sample t attempt l =
    if (ltb 1 attempt && l.wait) && not t.waited
    then stop context_ended (wait_turn sample attempt l)
    else if not t.builds
    then stop not_built (wait_turn sample attempt l)
    else if not t.slot
    then stop context_ended (wait_turn sample attempt l)
    else send t (acquire (wait_turn sample attempt l))

unfoldable pub post_loop : (ℕ → ℕ) → (ℕ → Try) → ℕ → ℕ → Loop → Outcome × Loop
unfolding attempt_once
post_loop sample world zero attempt l = (failed l.last_err, l)
post_loop sample world (suc rounds) attempt l =
    elim (attempt_once sample (world attempt) attempt l) [
      | stop o l' ↦ (o, l')
      | again l' ↦ post_loop sample world rounds (attempt + 1) l'
    ]

abbrev pub start : Client → Loop
start c = record {
  client = c;
  last_err = none;
  wait = true;
  rate_limited = 0;
  retry_after = 0;
  delays = [];
  trips = [];
}

-- `postStream` for a credential with a key.
unfoldable pub post_stream : (ℕ → ℕ) → (ℕ → Try) → Client → Outcome × Loop
unfolding post_loop attempts
post_stream sample world c = post_loop sample world (attempts c) 1 (start c)
