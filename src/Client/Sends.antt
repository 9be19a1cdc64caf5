-- ===== src/Client/Sends.antt =====
-- internal/devin/client.go: what one attempt of a request does to the count of its sendings, of its
-- refusals and of the slots it holds.
use devin2proxy.Prelude.{
  ℕ, suc, ◌+◌, ◌≤◌, ◌<◌, ◌≡◌, refl, ◌&&◌, not, Option, inl, inr, List, [], ◌∷◌, ltb, leb, ◌==◌,
  if◌then◌else◌, length, All, Bytes, arith, Bool-cases,
}
use devin2proxy.Errors.{GoError}
use devin2proxy.Egress.Routes
use devin2proxy.Egress.Routes.{Egress, EgressPool, with_route}
use devin2proxy.Client.Attempts.{
  acquire, release, Try, Trip, broke, answered, Loop, Outcome, streaming, context_ended, not_built,
  failed, Progress, stop, again, rate_limit_budget, wait_turn, set_pool, after_break, after_refusal,
  after_trip, send, attempt_once,
}

-- A sending that the code repeats: nothing came back, or a refusal for its rate.
abbrev pub Retriable : Trip → Type 0
Retriable (broke e) = Unit {0}
Retriable (answered status body header) = status ≡ 429

abbrev pub refusal : Trip → ℕ
refusal (broke e) = 0
refusal (answered status body header) = if status == 429 then 1 else 0

unfoldable pub refusals : List Trip → ℕ
refusals [] = 0
refusals (t ∷ ts) = refusal t + refusals ts

-- The slots that an outcome keeps.
abbrev pub kept_slots : Outcome → ℕ
kept_slots (streaming route) = 1
kept_slots context_ended = 0
kept_slots not_built = 0
kept_slots (failed e) = 0

abbrev pub EarlierRetriable : List Trip → Type 0
EarlierRetriable [] = Unit {0}
EarlierRetriable (t ∷ ts) = All Retriable ts

-- What holds between two attempts, `sent` of which are over.
pub record Between (taken budget sent : ℕ) (l : Loop) : Type 0 where
  pub retriable : All Retriable l.trips
  pub few : length l.trips ≤ sent
  pub slots : l.client.taken ≡ taken
  pub counted : refusals l.trips ≡ l.rate_limited
  pub below : l.rate_limited < budget
  pub same_budget : rate_limit_budget l.client ≡ budget

-- How a request ends that may be sent `limit` times.
pub record Ended (taken budget limit : ℕ) (o : Outcome) (l : Loop) : Type 0 where
  pub once : EarlierRetriable l.trips
  pub few : length l.trips ≤ limit
  pub refused : refusals l.trips ≤ budget
  pub slots : l.client.taken ≡ taken + kept_slots o

abbrev pub Goes : ℕ → ℕ → ℕ → Progress → Type 0
Goes taken budget sent (stop o l) = Ended taken budget sent o l
Goes taken budget sent (again l) = Between taken budget sent l

pub Earlier-of_All : (ts : List Trip) → All Retriable ts → EarlierRetriable ts
Earlier-of_All [] h = tt
Earlier-of_All (t ∷ ts) h = h.1

module _ (taken budget sent : ℕ) where
  wait_turn-Between :
      (sample : ℕ → ℕ) (attempt : ℕ) (l : Loop)
      → Between taken budget sent l
      → Between taken budget sent (wait_turn sample attempt l)
  unfolding wait_turn
  wait_turn-Between sample attempt l v = elim (Bool-cases (ltb 1 attempt && l.wait)) [
    | inl waits ↦ rw waits (record {
      retriable = v.retriable;
      few = v.few;
      slots = v.slots;
      counted = v.counted;
      below = v.below;
      same_budget = v.same_budget;
    })
    | inr goes ↦ rw goes (record {
      retriable = v.retriable;
      few = v.few;
      slots = v.slots;
      counted = v.counted;
      below = v.below;
      same_budget = v.same_budget;
    })
  ]

  -- A request that ends without being sent again.
  Ended-of_Between :
      (o : Outcome) (l : Loop)
      → kept_slots o ≡ 0
      → Between taken budget sent l
      → Ended taken budget (suc sent) o l
  Ended-of_Between o l e v = record {
    once = Earlier-of_All l.trips v.retriable;
    few = omega (arith, v.few);
    refused = omega (arith, v.counted, v.below);
    slots = omega (arith, v.slots, e);
  }

-- What holds once `trip` is the last one, and nothing has been made of it yet but that its slot may
-- be released.
record Sent (held taken budget sent : ℕ) (trip : Trip) (l : Loop) : Type 0 where
  earlier : EarlierRetriable l.trips
  whole : Retriable trip → All Retriable l.trips
  few : length l.trips ≤ suc sent
  slots : l.client.taken ≡ held + taken
  counted : refusals l.trips ≡ refusal trip + l.rate_limited
  below : l.rate_limited < budget
  same_budget : rate_limit_budget l.client ≡ budget

module _ (taken budget sent : ℕ) (t : Try) (route : Option Egress) where
  after_break-Goes :
      (err : GoError) (l : Loop)
      → Sent 0 taken budget sent (broke err) l
      → Goes taken budget (suc sent) (after_break t route err l)
  unfolding after_break rate_limit_budget
  after_break-Goes err l v = elim (Bool-cases t.gave_up) [
    | inl gone ↦ rw gone (record {
      once = v.earlier;
      few = v.few;
      refused = omega (arith, v.counted, v.below);
      slots = omega (arith, v.slots);
    })
    | inr here ↦ rw here (record {
      retriable = v.whole tt;
      few = v.few;
      slots = omega (arith, v.slots);
      counted = omega (arith, v.counted);
      below = v.below;
      same_budget = v.same_budget;
    })
  ]

  after_refusal-Goes :
      (status : ℕ) (body header : Bytes) (l : Loop)
      → Sent 0 taken budget sent (answered status body header) l
      → Goes taken budget (suc sent) (after_refusal status body header l)
  unfolding after_refusal
  after_refusal-Goes status body header l v =
      let counted = v.counted in
      elim (Bool-cases (status == 429)) [
        | inr other ↦ rw other (record {
          once = v.earlier;
          few = v.few;
          refused = ground (arith, counted, v.below, other);
          slots = omega (arith, v.slots);
        })
        | inl same ↦ elim (Bool-cases (leb (rate_limit_budget l.client) (l.rate_limited + 1))) [
          | inl spent ↦
              rw (same, spent)
                (record {
                  once = v.earlier;
                  few = v.few;
                  refused = ground (arith, counted, v.below, same);
                  slots = omega (arith, v.slots);
                })
          | inr left ↦
              rw (same, left)
                (record {
                  retriable = v.whole (ground (arith, same));
                  few = v.few;
                  slots = omega (arith, v.slots);
                  counted = ground (arith, counted, same);
                  below = ground (arith, left, v.same_budget);
                  same_budget = v.same_budget;
                })
        ]
      ]

  release-Sent :
      (trip : Trip) (l : Loop)
      → Sent 1 taken budget sent trip l
      → Sent 0 taken budget sent trip (release l)
  unfolding rate_limit_budget
  release-Sent trip l v = record {
    earlier = v.earlier;
    whole = v.whole;
    few = v.few;
    slots = omega (arith, v.slots);
    counted = v.counted;
    below = v.below;
    same_budget = v.same_budget;
  }

  after_trip-Goes :
      (trip : Trip) (l : Loop)
      → Sent 1 taken budget sent trip l
      → Goes taken budget (suc sent) (after_trip t route trip l)
  unfolding after_trip
  after_trip-Goes (broke err) l v = after_break-Goes err (release l) (release-Sent (broke err) l v)
  after_trip-Goes (answered status body header) l v = elim (Bool-cases (status == 200)) [
    | inl good ↦ rw good (record {
      once = v.earlier;
      few = v.few;
      refused = ground (arith, v.counted, v.below, good);
      slots = omega (arith, v.slots);
    })
    | inr other ↦ rw other (
        after_refusal-Goes status body header (release l)
          (release-Sent (answered status body header) l v))
  ]

send-Goes :
    (taken budget sent : ℕ) (t : Try) (l : Loop)
    → Between taken budget sent l
    → Goes taken budget (suc sent) (send t (acquire l))
unfolding send refusals rate_limit_budget
send-Goes taken budget sent t l v =
    let (route, pool) = Routes.next l.client.egress t.picked_at in
    after_trip-Goes taken budget sent t route t.trip
      (record (set_pool (acquire l) pool) { trips = t.trip ∷ l.trips })
      (record {
        earlier = v.retriable;
        whole = λ u. (u, v.retriable);
        few = omega (arith, v.few);
        slots = omega (arith, v.slots);
        counted = omega (arith, v.counted);
        below = v.below;
        same_budget = v.same_budget;
      })

module _ (taken budget sent : ℕ) (sample : ℕ → ℕ) (t : Try) (attempt : ℕ) (l : Loop) where
  pub attempt_once-Goes :
      Between taken budget sent l → Goes taken budget (suc sent) (attempt_once sample t attempt l)
  unfolding attempt_once
  attempt_once-Goes v =
      let v' = wait_turn-Between taken budget sent sample attempt l v in
      let l' = wait_turn sample attempt l in
      elim (Bool-cases ((ltb 1 attempt && l.wait) && not t.waited)) [
        | inl late ↦ rw late (Ended-of_Between taken budget sent context_ended l' refl v')
        | inr waited ↦ elim (Bool-cases t.builds) [
          | inr bad ↦ rw (waited, bad) (Ended-of_Between taken budget sent not_built l' refl v')
          | inl built ↦ elim (Bool-cases t.slot) [
            | inr late ↦
                rw (waited, built, late)
                  (Ended-of_Between taken budget sent context_ended l' refl v')
            | inl held ↦ rw (waited, built, held) (send-Goes taken budget sent t l' v')
          ]
        ]
      ]
