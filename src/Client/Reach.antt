-- ===== src/Client/Reach.antt =====
-- internal/devin/client.go: dead routes are walked past without a wait.
use devin2proxy.Prelude.{
  ℕ, zero, suc, ◌+◌, ◌<◌, ◌≡◌, refl, ◌∙◌, subst, true, false, ◌&&◌, Option, some, List, [], ◌∷◌,
  ltb, Bytes, arith,
}
use native.Mathlib.Nat.{add-zero}
use devin2proxy.Errors.{GoError}
use devin2proxy.Egress.Routes
use devin2proxy.Egress.Routes.{Egress, with_route}
use devin2proxy.Client.Attempts.{
  acquire, release, Client, Try, Trip, broke, answered, Loop, Outcome, streaming, stop, again,
  attempts, wait_turn, set_pool, after_break, after_trip, send, attempt_once, post_loop,
  post_stream, start,
}

-- The attempt is made, and fails on its way while the caller still waits.
pub record IsDead (t : Try) : Type 0 where
  pub builds : t.builds ≡ true
  pub slot : t.slot ≡ true
  pub patient : t.gave_up ≡ false
  pub why : GoError
  pub broken : t.trip ≡ broke why

-- The attempt is made, and answered with 200.
pub record IsGood (t : Try) : Type 0 where
  pub builds : t.builds ≡ true
  pub slot : t.slot ≡ true
  pub body : Bytes
  pub header : Bytes
  pub good : t.trip ≡ answered 200 body header

-- The loop with `trip` just come back over the route that was picked.
abbrev sent : Try → Trip → Loop → Loop
sent t trip l =
    record (set_pool (acquire (record l { wait = true }))
      (Routes.next l.client.egress t.picked_at).1) { trips = trip ∷ l.trips }

abbrev picked : Try → Loop → Option Egress
picked t l = (Routes.next l.client.egress t.picked_at).0

-- The loop after a dead attempt.
abbrev dead_end : Try → GoError → Loop → Loop
dead_end t err l =
    let l' = release (sent t (broke err) l) in
    record (set_pool l'
      (Routes.report l'.client.egress (picked t l) (some (with_route err)) t.reported_at)) {
        last_err = some (with_route err);
        wait = false;
      }

module _ (sample : ℕ → ℕ) (t : Try) (attempt : ℕ) (l : Loop) where
  module _ (no_wait : (ltb 1 attempt && l.wait) ≡ false) where
    attempt_once-send :
        t.builds ≡ true
        → t.slot ≡ true
        → attempt_once sample t attempt l ≡ after_trip t (picked t l) t.trip (sent t t.trip l)
    unfolding attempt_once wait_turn send
    attempt_once-send built held = rw no_wait (rw (built, held) refl)

    attempt_once-dead :
        (d : IsDead t) → attempt_once sample t attempt l ≡ again (dead_end t d.why l)
    unfolding after_trip after_break
    attempt_once-dead d =
        attempt_once-send d.builds d.slot
        ∙ (λ i. after_trip t (picked t l) (d.broken i) (sent t (d.broken i) l))
        ∙ rw d.patient refl

    good_end : IsGood t → Loop
    good_end g = sent t (answered 200 g.body g.header) l

    attempt_once-good :
        (g : IsGood t)
        → attempt_once sample t attempt l ≡ stop (streaming (picked t l)) (good_end g)
    unfolding after_trip good_end
    attempt_once-good g =
        attempt_once-send g.builds g.slot
        ∙ (λ i. after_trip t (picked t l) (g.good i) (sent t (g.good i) l))

-- The answer is a stream, and no time was waited beyond `delays`.
pub record IsStreaming (delays : List ℕ) (r : Outcome × Loop) : Type 0 where
  pub route : Option Egress
  pub streams : r.0 ≡ streaming route
  pub no_delay : r.1.delays ≡ delays

post_loop-streams :
    (sample : ℕ → ℕ) (world : ℕ → Try) (rounds k attempt : ℕ) (l : Loop)
    → k < rounds
    → (ltb 1 attempt && l.wait) ≡ false
    → ((i : ℕ) → i < k → IsDead (world (attempt + i)))
    → IsGood (world (attempt + k))
    → IsStreaming l.delays (post_loop sample world rounds attempt l)
unfolding post_loop
post_loop-streams sample world zero k attempt l h no_wait dead good = absurd (omega arith)
post_loop-streams sample world (suc rounds) zero attempt l h no_wait dead good =
    let g = subst (λ n. IsGood (world n)) (add-zero attempt) good in
    rw (attempt_once-good sample (world attempt) attempt l no_wait g, post_loop)
      (record {
        route = picked (world attempt) l;
        streams = refl;
        no_delay = unfold good_end in refl;
      })
post_loop-streams sample world (suc rounds) (suc k) attempt l h no_wait dead good =
    let first = subst (λ n. IsDead (world n)) (add-zero attempt) (dead 0 (omega arith)) in
    let l' = dead_end (world attempt) first.why l in
    let later = λ (i : ℕ). let e : attempt + suc i ≡ attempt + 1 + i = omega arith in e in
    rw (attempt_once-dead sample (world attempt) attempt l no_wait first, post_loop)
      (post_loop-streams sample world rounds k (attempt + 1) l' (omega arith) (ground arith)
        (λ i below. subst (λ n. IsDead (world n)) (later i) (dead (suc i) (omega arith)))
        (subst (λ n. IsGood (world n)) (later k) good))

-- If the first k attempts of a request fail on their way, k being less than the number of attempts,
-- and the next is answered with 200, the request ends with a stream and has not waited between two
-- attempts.
pub post_stream-streams :
    (sample : ℕ → ℕ) (world : ℕ → Try) (c : Client) (k : ℕ)
    → k < attempts c
    → ((i : ℕ) → i < k → IsDead (world (1 + i)))
    → IsGood (world (1 + k))
    → IsStreaming [] (post_stream sample world c)
unfolding post_stream
post_stream-streams sample world c k h dead good =
    post_loop-streams sample world (attempts c) k 1 (start c) h refl dead good
