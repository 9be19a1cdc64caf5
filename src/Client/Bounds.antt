-- ===== src/Client/Bounds.antt =====
-- internal/devin/client.go: what a request may cost: how often it is sent, how often the account is
-- asked again after a refusal, and the slots it holds.
use devin2proxy.Prelude.{
  ℕ, zero, suc, ◌+◌, ◌≤◌, ◌<◌, ◌≡◌, refl, inl, inr, ◌⊎◌, ltb, arith, Bool-cases,
}
use devin2proxy.Egress.Routes
use devin2proxy.Egress.Routes.{Egress, EgressPool, with_route}
use devin2proxy.Client.Attempts.{
  Client, Try, Loop, Outcome, Progress, stop, again, attempts, rate_limit_budget, attempt_once,
  post_loop, post_stream, start,
}
use devin2proxy.Client.Sends.{refusals, Between, Ended, Goes, Earlier-of_All, attempt_once-Goes}

post_loop-Ended :
    (taken budget : ℕ) (sample : ℕ → ℕ) (world : ℕ → Try) (rounds sent attempt : ℕ) (l : Loop)
    → Between taken budget sent l
    → let r = post_loop sample world rounds attempt l in Ended taken budget (rounds + sent) r.0 r.1
unfolding post_loop
post_loop-Ended taken budget sample world zero sent attempt l v = record {
  once = Earlier-of_All l.trips v.retriable;
  few = omega (arith, v.few);
  refused = omega (arith, v.counted, v.below);
  slots = omega (arith, v.slots);
}
post_loop-Ended taken budget sample world (suc rounds) sent attempt l v =
    of_progress (attempt_once sample (world attempt) attempt l)
      (attempt_once-Goes taken budget sent sample (world attempt) attempt l v)
      (λ l'. post_loop-Ended taken budget sample world rounds (suc sent) (attempt + 1) l')
  where
    of_progress :
        (p : Progress)
        → Goes taken budget (suc sent) p
        → ((l' : Loop)
            → Between taken budget (suc sent) l'
            → let r = post_loop sample world rounds (attempt + 1) l' in
              Ended taken budget (rounds + suc sent) r.0 r.1)
        → let r : Outcome × Loop = elim p [
          | stop o l' ↦ (o, l')
          | again l' ↦ post_loop sample world rounds (attempt + 1) l'
        ] in
          Ended taken budget (suc rounds + sent) r.0 r.1
    of_progress (stop o l') e ih = record {
      once = e.once;
      few = omega (arith, e.few);
      refused = e.refused;
      slots = e.slots;
    }
    of_progress (again l') v' ih =
        let e = ih l' v' in
        record { once = e.once; few = omega (arith, e.few); refused = e.refused; slots = e.slots }

pub rate_limit_budget-pos : (c : Client) → 0 < rate_limit_budget c
unfolding rate_limit_budget
rate_limit_budget-pos c = ground arith

-- A request is sent at most as often as `attempts` says, and all but its last sending were refused
-- for their rate or got no answer; there are at most as many refusals as the budget; and just the
-- slot of a stream that is handed back is held at the end.
pub post_stream-Ended :
    (sample : ℕ → ℕ) (world : ℕ → Try) (c : Client)
    → Ended c.taken
        (rate_limit_budget c)
        (attempts c)
        (post_stream sample world c).0
        (post_stream sample world c).1
unfolding post_stream refusals
post_stream-Ended sample world c =
    let e =
      post_loop-Ended c.taken (rate_limit_budget c) sample world (attempts c) 0 1 (start c)
        (record {
          retriable = tt;
          few = omega arith;
          slots = refl;
          counted = refl;
          below = rate_limit_budget-pos c;
          same_budget = refl;
        }) in
    record { once = e.once; few = omega (arith, e.few); refused = e.refused; slots = e.slots }

-- There are at least three attempts and at most six, and between these one more than there are
-- routes.
pub attempts_bounds :
    (c : Client)
    → (3 ≤ attempts c)
      × (attempts c ≤ 6)
      × ((attempts c ≡ 6) ⊎ (Routes.len c.egress + 1 ≤ attempts c))
unfolding attempts
attempts_bounds c = (ground arith, ground arith, reach)
  where
    reach : (attempts c ≡ 6) ⊎ (Routes.len c.egress + 1 ≤ attempts c)
    reach = elim (Bool-cases (ltb 5 (Routes.len c.egress))) [
      | inl many ↦ inl (ground (arith, many))
      | inr few ↦ inr (ground (arith, few))
    ]
