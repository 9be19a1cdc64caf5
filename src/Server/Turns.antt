-- ===== src/Server/Turns.antt =====
-- internal/server/server.go: how many accounts a request asks, and what it leaves behind.
use devin2proxy.Prelude.{
  ℕ, zero, suc, ◌<◌, subst, ltb, ◌+◌, refl, none, inl, inr, [], arith, Bool-cases,
}
use devin2proxy.Pool.Accounts.{Pool}
use devin2proxy.Pool.Invariant.{IsConsistent}
use devin2proxy.Server.Failover.{
  Turn, Round, Outcome, served, failed, exhausted, Progress, stop, again, take_turn, failover_loop,
  attempts, get_chat_message,
}
use devin2proxy.Server.Asking.{
  IsRefused, Ended, IsSettled, Between, Told, IsStopped, Goes, take_turn-Goes,
}

module _ (world : ℕ → Turn) (i : ℕ) (past : (j : ℕ) → j < i → IsRefused (world j)) where
  past-suc : IsRefused (world i) → (j : ℕ) → j < suc i → IsRefused (world j)
  past-suc now j h = elim (Bool-cases (ltb j i)) [
    | inl low ↦ past j (ground (arith, low))
    | inr same ↦ subst (λ k. IsRefused (world k)) (ground (arith, h, same)) now
  ]

  Told-Ended :
      (limit : ℕ) (o : Outcome) (r : Round)
      → Told (world i).call (suc i) o r
      → Ended world limit o r
  Told-Ended limit (served creds) r h = (i, h.0, h.1, h.2)
  Told-Ended limit (failed why) r h = tt
  Told-Ended limit (exhausted e) r h = absurd h

  IsStopped-IsSettled :
      (rounds : ℕ) (o : Outcome) (r : Round)
      → IsStopped (world i).call (suc i) o r
      → IsSettled world (suc rounds + i) o r
  IsStopped-IsSettled rounds o r e = record {
    consistent = e.consistent;
    few = omega (arith, e.few);
    walked = λ j h. past j (omega (arith, e.few, h));
    ended = Told-Ended (suc rounds + i) o r e.told;
    streams = e.streams;
  }

failover_loop-IsSettled :
    (world : ℕ → Turn) (rounds i : ℕ) (r : Round)
    → ((j : ℕ) → j < i → IsRefused (world j))
    → Between i r
    → let e = failover_loop world rounds i r in IsSettled world (rounds + i) e.0 e.1
unfolding failover_loop
failover_loop-IsSettled world zero i r past v = record {
  consistent = v.consistent;
  few = omega (arith, v.counted);
  walked = λ j h. past j (omega (arith, v.counted, h));
  ended = (omega (arith, v.counted), λ j h. past j (omega (arith, h)));
  streams = v.streams;
}
failover_loop-IsSettled world (suc rounds) i r past v =
    of_progress (take_turn (world i) r) (take_turn-Goes (world i) i r v)
      (λ r'. failover_loop-IsSettled world rounds (i + 1) r')
  where
    of_progress :
        (p : Progress)
        → Goes (world i).gave_up (world i).call (suc i) p
        → ((r' : Round)
            → ((j : ℕ) → j < i + 1 → IsRefused (world j))
            → Between (i + 1) r'
            → let e = failover_loop world rounds (i + 1) r' in
              IsSettled world (rounds + (i + 1)) e.0 e.1)
        → let e : Outcome × Round = elim p [
          | stop o r' ↦ (o, r')
          | again r' ↦ failover_loop world rounds (i + 1) r'
        ] in
          IsSettled world (suc rounds + i) e.0 e.1
    of_progress (stop o r') e ih = IsStopped-IsSettled world i past rounds o r' e
    of_progress (again r') g ih =
        subst
          (λ n.
            IsSettled world n (failover_loop world rounds (i + 1) r').0
              (failover_loop world rounds (i + 1) r').1)
          (omega arith)
          (ih r' (λ j h. past-suc world i past (g.1, g.2, g.3, g.4) j (omega (arith, h)))
            (record {
              consistent = g.0.consistent;
              counted = omega (arith, g.0.counted);
              streams = g.0.streams;
            }))

-- From a consistent pool, whatever the backend answers, at most `attempts` askings are made, each but
-- the last was refused by its account, a stream that is handed back comes from the account asked
-- last, in a turn without an error, and the request fails for want of attempts only after `attempts`
-- refusals. The pool is consistent again, and every stream that was opened is closed but the one that
-- is handed back. An account may be asked more than once, as when every account is cooling.
pub get_chat_message-IsSettled :
    (world : ℕ → Turn) (p : Pool)
    → IsConsistent p
    → IsSettled world (attempts p) (get_chat_message world p).0 (get_chat_message world p).1
unfolding get_chat_message
get_chat_message-IsSettled world p v =
    subst (λ n. IsSettled world n (get_chat_message world p).0 (get_chat_message world p).1)
      (omega arith)
      (failover_loop-IsSettled world (attempts p) 0
        (record { pool = p; asked = []; streams = 0; last_err = none })
        (λ j h. absurd (omega (arith, h)))
        (record { consistent = v; counted = refl; streams = refl }))
