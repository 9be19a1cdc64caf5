-- ===== src/Pool/Flights.antt =====
-- internal/devin/pool.go: one status call at a time for an account, whatever else the pool does while
-- the call is on its way.
use devin2proxy.Prelude.{
  ℕ, zero, suc, ◌<◌, ◌≡◌, ◌≢◌, refl, sym, ap, subst, ◌∙◌, inl, inr, true, false, ◌||◌, not, Option,
  some, none, List, [], ◌∷◌, All, arith, Bool-cases, Option-cases, get_elem?, get_or, set,
  get_or-set_self,
}
use devin2proxy.Pool.Reports.{record_refusal-IsConsistent, refresh_quota-IsConsistent}
use devin2proxy.Pool.Accounts.{Pool, index_locked, remember}
use devin2proxy.Pool.Cooldowns.{
  quota_held_locked, begin_refresh, refresh_quota, report, report_refusal, record_refusal,
  report_status, cooldown, set_status_source, clear_slot, clear_cooldown,
}
use devin2proxy.Pool.Identity.{index_locked_iff}
use devin2proxy.Pool.Invariant.{IsConsistent, Below}
use devin2proxy.Pool.Histories.{
  Call, adds, removes, removes_credential, nexts, reports, remembers, sets_status, clears, applies,
  releases, step, run, step-IsConsistent, run-IsConsistent,
}
use devin2proxy.Pool.Marks.{
  IsFlying, inside, remove-IsFlying, remove_credential-IsFlying, add-IsFlying, same_marks,
  next-IsFlying, refresh_quota-IsFlying, apply_quota-IsFlying, release_busy-IsFlying,
}

abbrev in_flight : Pool → ℕ → Pool
in_flight p idx = record p { busy = set p.busy idx true }

begin_refresh-started :
    (p q : Pool) (idx now : ℕ) → begin_refresh p idx now ≡ (true, q) → in_flight p idx ≡ q
unfolding begin_refresh
begin_refresh-started p q idx now started =
    elim (Bool-cases (not p.status || get_or p.busy idx false || quota_held_locked p idx now)) [
      | inl refused ↦ absurd (ground (arith, started, refused))
      | inr free ↦ ap (λ r. r.1) (rw free at started)
    ]

refresh_quota_at :
    (p : Pool) (creds : Option ℕ) (idx now : ℕ)
    → index_locked p creds ≡ some idx
    → refresh_quota p creds now ≡ begin_refresh p idx now
unfolding refresh_quota
refresh_quota_at p creds idx now held = rw (held, refresh_quota)

Below-get_elem? : (n i c : ℕ) (es : List ℕ) → Below n es → get_elem? es i ≡ some c → c < n
Below-get_elem? n i c [] b at = absurd (ground (arith, at))
Below-get_elem? n zero c (e ∷ es) b at = ground (arith, at, b.0)
Below-get_elem? n (suc i) c (e ∷ es) b at = Below-get_elem? n i c es b.1 at

report_refusal-IsFlying :
    (c : ℕ) (p : Pool) (creds status cool : Option ℕ) (now later : ℕ)
    → IsConsistent p
    → IsFlying c p
    → IsFlying c (report_refusal p creds status cool now later).1
unfolding report_refusal
report_refusal-IsFlying c p creds status none now later v f = f
report_refusal-IsFlying c p creds status (some cool) now later v f =
    elim (Option-cases (index_locked p creds)) [
      | inl gone ↦ rw (gone, report_refusal) f
      | inr (idx, held) ↦
          let p' = record_refusal p idx cool now in
          let f' : IsFlying c p' = unfold record_refusal in same_marks c p v f p' refl refl refl in
          rw (held, report_refusal)
            (ground (
              arith,
              f',
              refresh_quota-IsFlying c p' (record_refusal-IsConsistent p v idx cool now) f' creds
                  later,
            ))
    ]

-- The call does not take the mark of `c` off: that is the last thing the goroutine of a status call does.
abbrev pub Leaves : ℕ → Call → Type 0
Leaves c (releases creds) = creds ≢ some c
Leaves c (adds raw) = Unit {0}
Leaves c (removes idx) = Unit {0}
Leaves c (removes_credential creds) = Unit {0}
Leaves c (nexts now) = Unit {0}
Leaves c (reports creds status err now later) = Unit {0}
Leaves c (remembers creds st) = Unit {0}
Leaves c (sets_status b) = Unit {0}
Leaves c (clears creds now) = Unit {0}
Leaves c (applies creds st now) = Unit {0}

step-IsFlying :
    (c : ℕ) (p : Pool) (x : Call)
    → IsConsistent p
    → Leaves c x
    → IsFlying c p
    → IsFlying c (step p x)
unfolding step
step-IsFlying c p (adds raw) v l f = add-IsFlying c p v f raw
step-IsFlying c p (removes idx) v l f = remove-IsFlying c p v f idx
step-IsFlying c p (removes_credential creds) v l f = remove_credential-IsFlying c p v f creds
step-IsFlying c p (nexts now) v l f = next-IsFlying c p v f now
step-IsFlying c p (reports creds status err now later) v l f =
    unfold report in
    report_refusal-IsFlying c p creds (report_status status err)
      (cooldown (report_status status err)) now later v f
step-IsFlying c p (remembers creds st) v l f =
    unfold remember in
    same_marks c p v f (remember p creds st) (ground arith) (ground arith) (ground arith)
step-IsFlying c p (sets_status b) v l f =
    unfold set_status_source in same_marks c p v f (set_status_source p b) refl refl refl
step-IsFlying c p (clears creds now) v l f =
    unfold clear_cooldown clear_slot in
    same_marks c p v f (clear_cooldown p creds now).1 (ground arith) (ground arith) (ground arith)
step-IsFlying c p (applies creds st now) v l f = apply_quota-IsFlying c p v f creds st now
step-IsFlying c p (releases creds) v l f = release_busy-IsFlying c p v f creds l

run-IsFlying :
    (c : ℕ) (p : Pool) (xs : List Call)
    → IsConsistent p
    → All (Leaves c) xs
    → IsFlying c p
    → IsFlying c (run p xs)
unfolding run
run-IsFlying c p [] v l f = f
run-IsFlying c p (x ∷ xs) v l f =
    run-IsFlying c (step p x) xs (step-IsConsistent p x v) l.1 (step-IsFlying c p x v l.0 f)

refused_while_flying :
    (c : ℕ) (p : Pool) (now : ℕ)
    → IsConsistent p
    → IsFlying c p
    → refresh_quota p (some c) now ≡ (false, p)
unfolding refresh_quota begin_refresh
refused_while_flying c p now v f = elim (Option-cases (index_locked p (some c))) [
  | inl gone ↦ rw (gone, refresh_quota) refl
  | inr (idx, held) ↦
      rw (held, refresh_quota)
        (ground (arith, f.marked idx ((index_locked_iff p c idx v.numbered).0 held)))
]

-- From the start of a status call for an account to the end of its goroutine no second one is
-- started for it, whatever other calls of the pool come between, removals, additions, reports and the
-- ends of other status calls among them.
pub refresh_quota_once :
    (p q : Pool) (c idx now later : ℕ) (xs : List Call)
    → IsConsistent p
    → index_locked p (some c) ≡ some idx
    → refresh_quota p (some c) now ≡ (true, q)
    → All (Leaves c) xs
    → refresh_quota (run q xs) (some c) later ≡ (false, run q xs)
refresh_quota_once p q c idx now later xs v held started l =
    let at = (index_locked_iff p c idx v.numbered).0 held in
    let here = inside p.entries idx c at in
    let same =
      begin_refresh-started p q idx now
        (sym (refresh_quota_at p (some c) idx now held) ∙ started) in
    let flying : IsFlying c (in_flight p idx) = record {
      made = Below-get_elem? p.fresh idx c p.entries v.allocated at;
      marked = λ i at_i.
          ap (λ k. get_or (set p.busy idx true) k false) (one_place i at_i)
          ∙ get_or-set_self p.busy idx true false (omega (arith, here, v.busy_slots));
    } in
    let v' : IsConsistent q =
      subst IsConsistent (ap (λ r. r.1) started) (refresh_quota-IsConsistent p v (some c) now) in
    let vs = run-IsConsistent q xs v' in
    refused_while_flying c (run q xs) later vs
      (run-IsFlying c q xs v' l (subst (IsFlying c) same flying))
  where
    one_place : (i : ℕ) → get_elem? p.entries i ≡ some c → i ≡ idx
    one_place i at_i =
        let found = (index_locked_iff p c i v.numbered).1 at_i in ground (arith, found, held)
