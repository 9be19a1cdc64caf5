-- ===== src/Server/Asking.antt =====
-- internal/server/server.go: one turn of `getChatMessage`, and what it leaves behind.
use devin2proxy.Prelude.{
  ℕ, suc, ◌<◌, get_elem?, true, false, Bool, ◌+◌, ◌-◌, ◌≤◌, ◌≡◌, refl, Option, none, some, inl, inr,
  ◌∷◌, if◌then◌else◌, length, arith, Bool-cases,
}
use devin2proxy.Errors.{GoError}
use devin2proxy.Pool.Accounts
use devin2proxy.Pool.Accounts.{Pool}
use devin2proxy.Pool.Cooldowns
use devin2proxy.Pool.Invariant.{IsConsistent}
use devin2proxy.Pool.Histories.{nexts, reports, step, step-IsConsistent}
use devin2proxy.Server.Refusals.{no_credential, is_account_refusal}
use devin2proxy.Server.Failover.{
  Call, unsent, opened, Turn, call_error, opens, Round, Outcome, served, failed, exhausted,
  Progress, stop, again, after_error, after_call, ask, take_turn,
}

-- The streams that an outcome hands back.
abbrev pub handed : Outcome → ℕ
handed (served creds) = 1
handed (failed why) = 0
handed (exhausted e) = 0

-- The account was asked and refused, and the client still waits.
abbrev pub IsRefused : Turn → Type 0
IsRefused t =
    (t.gave_up ≡ false)
    × (e : GoError) × (call_error t.call ≡ some e)
    × (is_account_refusal e ≡ true)

-- A stream comes from the account that was asked last, in a turn without an error, and the attempts
-- are used up only when each of them was refused.
abbrev pub Ended : (ℕ → Turn) → ℕ → Outcome → Round → Type 0
Ended world limit (served creds) r =
    (i : ℕ) × (length r.asked ≡ suc i)
    × (get_elem? r.asked 0 ≡ some creds)
    × (call_error (world i).call ≡ none)
Ended world limit (failed why) r = Unit {0}
Ended world limit (exhausted e) r =
    (length r.asked ≡ limit) × ((i : ℕ) → i < limit → IsRefused (world i))

-- A request that is over, after at most `limit` askings, each but the last a refusal.
pub record IsSettled (world : ℕ → Turn) (limit : ℕ) (o : Outcome) (r : Round) : Type 0 where
  pub consistent : IsConsistent r.pool
  pub few : length r.asked ≤ limit
  pub walked : (i : ℕ) → suc i < length r.asked → IsRefused (world i)
  pub ended : Ended world limit o r
  pub streams : r.streams ≡ handed o

pub record Between (asked : ℕ) (r : Round) : Type 0 where
  pub consistent : IsConsistent r.pool
  pub counted : length r.asked ≡ asked
  pub streams : r.streams ≡ 0

-- What a turn tells of an outcome; no turn ends with the attempts used up.
abbrev pub Told : Call → ℕ → Outcome → Round → Type 0
Told c asked (served creds) r =
    (length r.asked ≡ asked) × (get_elem? r.asked 0 ≡ some creds) × (call_error c ≡ none)
Told c asked (failed why) r = Unit {0}
Told c asked (exhausted e) r = ⊥

pub record IsStopped (c : Call) (asked : ℕ) (o : Outcome) (r : Round) : Type 0 where
  pub consistent : IsConsistent r.pool
  pub few : length r.asked ≤ asked
  pub told : Told c asked o r
  pub streams : r.streams ≡ handed o

abbrev pub Goes : Bool → Call → ℕ → Progress → Type 0
Goes gone c asked (stop o r) = IsStopped c asked o r
Goes gone c asked (again r) =
    Between asked r
    × (gone ≡ false)
    × (e : GoError) × (call_error c ≡ some e)
    × (is_account_refusal e ≡ true)

next-kept : (p : Pool) (now : ℕ) → IsConsistent p → IsConsistent (Accounts.next p now).1
unfolding step
next-kept p now v = step-IsConsistent p (nexts now) v

report-kept :
    (p : Pool) (creds : Option ℕ) (err : GoError) (now later : ℕ)
    → IsConsistent p
    → IsConsistent (Cooldowns.report p creds 0 (some err) now later).1
unfolding step
report-kept p creds err now later v = step-IsConsistent p (reports creds 0 (some err) now later) v

opens_one : (c : Call) → call_error c ≡ none → opens c ≡ 1
opens_one (unsent e) fine = absurd (cc fine)
opens_one (opened e) fine = refl

module _ (t : Turn) (asked : ℕ) where
  after_error-Goes :
      (creds : Option ℕ) (err : GoError) (r : Round)
      → call_error t.call ≡ some err
      → Between asked r
      → Goes t.gave_up t.call asked (after_error t creds err r)
  unfolding after_error
  after_error-Goes creds err r failing v =
      let kept = report-kept r.pool creds err t.reported_at t.refreshed_at v.consistent in
      let few : length r.asked ≤ asked = omega (arith, v.counted) in
      elim (Bool-cases t.gave_up) [
        | inl gone ↦
            rw gone
              (record { consistent = v.consistent; few = few; told = tt; streams = v.streams })
        | inr here ↦ elim (Bool-cases (is_account_refusal err)) [
          | inr other ↦
              rw (here, other)
                (record { consistent = kept; few = few; told = tt; streams = v.streams })
          | inl refused ↦
              rw (here, refused)
                (
                  (record { consistent = kept; counted = v.counted; streams = v.streams }),
                  refl,
                  err,
                  failing,
                  refused,
                )
        ]
      ]

  after_call-Goes :
      (creds : Option ℕ) (r : Round)
      → get_elem? r.asked 0 ≡ some creds
      → Between asked r
      → Goes t.gave_up t.call asked (after_call t creds r)
  unfolding after_call
  after_call-Goes creds r first v = of_error (call_error t.call) refl
    where
      of_error :
          (o : Option GoError)
          → call_error t.call ≡ o
          → let p : Progress = elim o [
            | none ↦ stop (served creds) (record r { streams = r.streams + opens t.call })
            | some err ↦
                after_error t creds err
                  (record r { streams = r.streams + opens t.call - opens t.call })
          ] in
            Goes t.gave_up t.call asked p
      of_error none fine = record {
        consistent = v.consistent;
        few = omega (arith, v.counted);
        told = (v.counted, first, fine);
        streams = omega (arith, v.streams, opens_one t.call fine);
      }
      of_error (some e) failing =
          after_error-Goes creds e (record r { streams = r.streams + opens t.call - opens t.call })
            failing
            (record {
              consistent = v.consistent;
              counted = v.counted;
              streams = omega (arith, v.streams);
            })

module _ (t : Turn) (i : ℕ) where
  ask-Goes :
      (creds : Option ℕ) (r : Round) → Between i r → Goes t.gave_up t.call (suc i) (ask t creds r)
  unfolding ask
  ask-Goes creds r v = elim (Bool-cases t.builds) [
    | inr bad ↦ rw bad (record {
      consistent = v.consistent;
      few = omega (arith, v.counted);
      told = tt;
      streams = v.streams;
    })
    | inl built ↦ rw built (
        after_call-Goes t (suc i) creds (record r { asked = creds ∷ r.asked }) refl
          (record {
            consistent = v.consistent;
            counted = omega (arith, v.counted);
            streams = v.streams;
          }))
  ]

  pub take_turn-Goes : (r : Round) → Between i r → Goes t.gave_up t.call (suc i) (take_turn t r)
  unfolding take_turn
  take_turn-Goes r v = of_next (Accounts.next r.pool t.picked_at).0
    where
      kept : Between i (record r { pool = (Accounts.next r.pool t.picked_at).1 })
      kept = record {
        consistent = next-kept r.pool t.picked_at v.consistent;
        counted = v.counted;
        streams = v.streams;
      }

      of_next :
          (creds : Option ℕ)
          → let r' : Round = record r { pool = (Accounts.next r.pool t.picked_at).1 } in
            let p : Progress = elim creds [
              | none ↦ if t.loads then ask t none r' else stop (failed no_credential) r'
              | some c ↦ ask t (some c) r'
            ] in
            Goes t.gave_up t.call (suc i) p
      of_next (some c) =
          ask-Goes (some c) (record r { pool = (Accounts.next r.pool t.picked_at).1 }) kept
      of_next none = elim (Bool-cases t.loads) [
        | inl found ↦
            rw found (ask-Goes none (record r { pool = (Accounts.next r.pool t.picked_at).1 }) kept)
        | inr missing ↦ rw missing (record {
          consistent = kept.consistent;
          few = omega (arith, v.counted);
          told = tt;
          streams = v.streams;
        })
      ]
