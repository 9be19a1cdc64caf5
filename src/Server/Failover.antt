-- ===== src/Server/Failover.antt =====
-- internal/server/server.go: `getChatMessage`, over the account pool. What building the request, the
-- client and the caller's context do in attempt `n` is `world n`.
use devin2proxy.Prelude.{
  ℕ, zero, suc, ◌+◌, ◌-◌, Bool, not, Option, none, some, List, [], ◌∷◌, ltb, if◌then◌else◌,
}
use devin2proxy.Errors.{GoError}
use devin2proxy.Pool.Accounts
use devin2proxy.Pool.Accounts.{Pool}
use devin2proxy.Pool.Cooldowns
use devin2proxy.Server.Refusals.{Failure, bad_request, no_credential, upstream, is_account_refusal}

-- What `GetChatMessage` answers: an error, or a stream with what `Peek` finds in it.
pub data Call : Type 0 where
  unsent : GoError → Call
  opened : Option GoError → Call

-- `loads` says whether `LoadCredentials` finds the CLI's own credential.
pub record Turn : Type 0 where
  pub picked_at : ℕ
  pub loads : Bool
  pub builds : Bool
  pub call : Call
  pub gave_up : Bool
  pub reported_at : ℕ
  pub refreshed_at : ℕ

abbrev pub not_eof : GoError → Option GoError
not_eof e = if e.eof then none else some e

-- The error of an attempt, `none` for a stream to hand back.
abbrev pub call_error : Call → Option GoError
call_error (unsent e) = some e
call_error (opened none) = none
call_error (opened (some e)) = not_eof e

abbrev pub opens : Call → ℕ
opens (unsent e) = 0
opens (opened e) = 1

-- The pool, the accounts that were asked, the last one first, and the streams that are open.
pub record Round : Type 0 where
  pub pool : Pool
  pub asked : List (Option ℕ)
  pub streams : ℕ
  pub last_err : Option GoError

pub data Outcome : Type 0 where
  served : Option ℕ → Outcome
  failed : Failure → Outcome
  -- the attempts are used up
  exhausted : Option GoError → Outcome

pub data Progress : Type 0 where
  stop : Outcome → Round → Progress
  again : Round → Progress

-- `stream.Close()`, for a stream that was opened.
abbrev pub close_stream : Call → Round → Round
close_stream c r = record r { streams = r.streams - opens c }

-- A failed attempt, once its stream is closed.
unfoldable pub after_error : Turn → Option ℕ → GoError → Round → Progress
unfolding is_account_refusal Cooldowns.report
after_error t creds err r =
    let pool = (Cooldowns.report r.pool creds 0 (some err) t.reported_at t.refreshed_at).1 in
    if t.gave_up
    then stop (failed (upstream err)) (record r { last_err = some err })
    else if not (is_account_refusal err)
    then stop (failed (upstream err)) (record r { last_err = some err; pool = pool })
    else again (record r { last_err = some err; pool = pool })

unfoldable pub after_call : Turn → Option ℕ → Round → Progress
unfolding after_error
after_call t creds r =
    let opened_one : Round = record r { streams = r.streams + opens t.call } in
    elim (call_error t.call) [
      | none ↦ stop (served creds) opened_one
      | some err ↦ after_error t creds err (close_stream t.call opened_one)
    ]

unfoldable pub ask : Turn → Option ℕ → Round → Progress
unfolding after_call
ask t creds r =
    if not t.builds
    then stop (failed bad_request) r
    else after_call t creds (record r { asked = creds ∷ r.asked })

unfoldable pub take_turn : Turn → Round → Progress
unfolding Accounts.next ask
take_turn t r =
    let (creds, pool) = Accounts.next r.pool t.picked_at in
    let r' : Round = record r { pool = pool } in
    elim creds [
      | none ↦ if t.loads then ask t none r' else stop (failed no_credential) r'
      | some c ↦ ask t (some c) r'
    ]

unfoldable pub failover_loop : (ℕ → Turn) → ℕ → ℕ → Round → Outcome × Round
unfolding take_turn
failover_loop world zero i r = (exhausted r.last_err, r)
failover_loop world (suc rounds) i r = elim (take_turn (world i) r) [
  | stop o r' ↦ (o, r')
  | again r' ↦ failover_loop world rounds (i + 1) r'
]

abbrev pub attempts : Pool → ℕ
attempts p = if ltb 1 (Accounts.len p) then Accounts.len p else 1

-- `getChatMessage`
unfoldable pub get_chat_message : (ℕ → Turn) → Pool → Outcome × Round
unfolding failover_loop Accounts.len
get_chat_message world p =
    failover_loop world (attempts p) 0
      (record { pool = p; asked = []; streams = 0; last_err = none })
