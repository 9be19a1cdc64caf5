-- ===== src/Pool/Guard.antt =====
-- What a refusal does to every account's cooldown, and what does nothing.
use Prim.Native.Nat.{max, min}
use devin2proxy.Prelude.{
  ◌≢◌, ◌*◌, leb, List, [], ◌∷◌, set, ◌∙◌, ap, ℕ, zero, suc, ◌+◌, ◌≤◌, ◌<◌, ◌≡◌, refl, ◌⊎◌, inl, inr,
  Bool, true, false, ◌&&◌, not, Option, some, none, arith, length, ltb, ◌==◌, if◌then◌else◌,
  Bool-cases,
}
use devin2proxy.Rotate.{count_warm}
use devin2proxy.Errors.{HttpError, GoError, is_context_failure}
use devin2proxy.Rotate
use devin2proxy.Rotate.{RotationCursor, deadline}
use devin2proxy.Rotate.Deadlines.{cool_off_lem, clamp_cooling_lem, clamp_cooling-SameShape}
use devin2proxy.Pool.Accounts.{Pool, index_locked, cool_rate_limited, cool_rejected}
use devin2proxy.Pool.Cooldowns.{
  report, report_status, error_status, cooldown, report_refusal, record_refusal, clamp_all,
  is_systemic, quota_held_locked,
}
use devin2proxy.Pool.Invariant.{IsConsistent}

-- The guard's loop over the slots from `i` on.
clamp_all_lem :
    (held : ℕ → Bool) (until j rounds i : ℕ) (c : RotationCursor)
    → i + rounds ≤ length c.cooling
    → deadline (clamp_all held c until rounds i) j ≡ (
        if not (ltb j i) && ltb j (i + rounds) && not (held j)
        then min (deadline c j) until
        else deadline c j)
unfolding clamp_all
clamp_all_lem held until j zero i c h = ground arith
clamp_all_lem held until j (suc rounds) i c h =
    let c' = if held i then c else (Rotate.clamp_cooling c i until).1 in
    ground (
      arith,
      clamp_all_lem held until j rounds (i + 1) c',
      clamp_cooling_lem c i j until,
      clamp_cooling-SameShape c i until,
    )

-- The deadline of slot `i` once slot `idx` has been refused at `now` for `cool`.
abbrev pub refused_deadline : Pool → ℕ → ℕ → ℕ → ℕ → ℕ
refused_deadline p idx cool now i =
    if i == idx then max (deadline p.rot idx) (now + cool) else deadline p.rot i

all_cooling : ℕ → List ℕ → Bool
all_cooling now [] = true
all_cooling now (t ∷ ts) = ltb now t && all_cooling now ts

-- Every account but that in slot `idx` is cooling.
unfoldable pub others_cooling : ℕ → ℕ → List ℕ → Bool
unfolding all_cooling
others_cooling now idx [] = true
others_cooling now zero (t ∷ ts) = all_cooling now ts
others_cooling now (suc idx) (t ∷ ts) = ltb now t && others_cooling now idx ts

-- A refusal for `cool` takes the last warm account out, for longer than a rate limit does, and it is
-- not the pool's only account.
abbrev pub empties_pool : Pool → ℕ → ℕ → ℕ → Bool
empties_pool p idx cool now =
    leb (deadline p.rot idx) now
    && others_cooling now idx p.rot.cooling
    && leb 2 (length p.entries)
    && ltb (30 * 1000000000) cool

count_warm-all_cooling : (now : ℕ) (ts : List ℕ) → (count_warm now ts == 0) ≡ all_cooling now ts
unfolding count_warm all_cooling
count_warm-all_cooling now [] = refl
count_warm-all_cooling now (t ∷ ts) = ground (arith, count_warm-all_cooling now ts)

count_warm-set :
    (now idx until : ℕ) (ts : List ℕ)
    → now < until
    → idx < length ts
    → (count_warm now (set ts idx until) == 0) ≡ others_cooling now idx ts
unfolding count_warm others_cooling
count_warm-set now idx until [] h inside = absurd (omega arith)
count_warm-set now zero until (t ∷ ts) h inside = ground (arith, count_warm-all_cooling now ts, h)
count_warm-set now (suc idx) until (t ∷ ts) h inside =
    ground (arith, count_warm-set now idx until ts h (omega arith))

is_systemic-empties_pool :
    (p : Pool) (idx cool now : ℕ)
    → IsConsistent p
    → idx < length p.entries
    → let r = Rotate.cool_off p.rot idx now (now + cool) in
      is_systemic p r.1 now cool r.0 ≡ empties_pool p idx cool now
unfolding is_systemic Rotate.cool_off Rotate.available_locked
is_systemic-empties_pool p idx cool now v h =
    elim (Bool-cases (leb (deadline p.rot idx) now && ltb cool_rate_limited cool)) [
      | inr other ↦ ground (arith, other)
      | inl long ↦ ground (
        arith,
        long,
        count_warm-set now idx (now + cool) p.rot.cooling (ground (arith, long))
            (omega (arith, v.slots, h)),
      )
    ]

-- A refusal moves the deadline of the refused account out to `now + cool`, never in. If it is for
-- longer than thirty seconds, the pool has other accounts, all of them are cooling, and the refused
-- one was not, then every account that no quota hold covers comes back within thirty seconds;
-- otherwise, and under a quota hold, the deadlines stay as they are.
pub record_refusal-deadline :
    (p : Pool) (idx cool now i : ℕ)
    → IsConsistent p
    → idx < length p.entries
    → i < length p.entries
    → deadline (record_refusal p idx cool now).rot i ≡ (
        if empties_pool p idx cool now && not (quota_held_locked p i now)
        then min (refused_deadline p idx cool now i) (now + cool_rate_limited)
        else refused_deadline p idx cool now i)
unfolding record_refusal
record_refusal-deadline p idx cool now i v h hi =
    let rot = (Rotate.cool_off p.rot idx now (now + cool)).1 in
    ground (
      arith,
      v.slots,
      is_systemic-empties_pool p idx cool now v h,
      cool_off_lem p.rot idx i now (now + cool),
      clamp_all_lem (λ k. quota_held_locked p k now) (now + cool_rate_limited) i (length p.entries)
          0 rot,
    )

report_refused :
    (p : Pool) (c idx code cool now later : ℕ)
    → index_locked p (some c) ≡ some idx
    → (code == 429) ≡ false
    → (report_refusal p (some c) (some code) (some cool) now later).1
      ≡ record_refusal p idx cool now
unfolding report_refusal
report_refused p c idx code cool now later held other = rw (held, report_refusal) (rw other refl)

-- An HTTP 401 or 403 for an account of the pool, from a request that was neither cancelled nor timed
-- out, parks that account for five minutes and no other, unless it was the last warm one of several:
-- then no account is parked for longer than thirty seconds but those under a quota hold.
pub report-deadline :
    (p : Pool) (c idx now later i : ℕ) (e : GoError) (h : HttpError)
    → IsConsistent p
    → idx < length p.entries
    → i < length p.entries
    → index_locked p (some c) ≡ some idx
    → e.canceled ≡ false
    → e.deadline_exceeded ≡ false
    → e.os_deadline_exceeded ≡ false
    → e.http ≡ some h
    → (h.status ≡ 401) ⊎ (h.status ≡ 403)
    → deadline (report p (some c) 0 (some e) now later).1.rot i ≡ (
        if empties_pool p idx (300 * 1000000000) now && not (quota_held_locked p i now)
        then min (refused_deadline p idx (300 * 1000000000) now i) (now + 30 * 1000000000)
        else refused_deadline p idx (300 * 1000000000) now i)
unfolding report report_status is_context_failure error_status cooldown
report-deadline p c idx now later i e h v inside hi held a b d http rejected =
    rw (a, b, d, http)
      (ap (λ q. deadline q.rot i) (of_status rejected)
        ∙ record_refusal-deadline p idx cool_rejected now i v inside hi)
  where
    of_status :
        (h.status ≡ 401) ⊎ (h.status ≡ 403)
        → (report_refusal p (some c) (some h.status) (cooldown (some h.status)) now later).1
          ≡ record_refusal p idx cool_rejected now
    of_status (inl s) = rw s (report_refused p c idx 401 cool_rejected now later held refl)
    of_status (inr s) = rw s (report_refused p c idx 403 cool_rejected now later held refl)

-- What a failed request shows that no account is to blame for: it was cancelled, it ran into a
-- deadline of either kind, or the backend refused nothing.
pub data IsInnocent (e : GoError) : Type 0 where
  canceled : e.canceled ≡ true → IsInnocent e
  timed_out : e.deadline_exceeded ≡ true → IsInnocent e
  io_timed_out : e.os_deadline_exceeded ≡ true → IsInnocent e
  unrefused : e.http ≡ none → e.connect ≡ none → IsInnocent e
  other_status :
      (h : HttpError)
      → e.http ≡ some h
      → h.status ≢ 401
      → h.status ≢ 403
      → h.status ≢ 429
      → IsInnocent e

unblamed : (e : GoError) → IsInnocent e → cooldown (report_status 0 (some e)) ≡ none
unfolding report_status is_context_failure error_status cooldown
unblamed e (canceled a) = rw a refl
unblamed e (timed_out a) = ground (arith, a)
unblamed e (io_timed_out a) = ground (arith, a)
unblamed e (unrefused h c) = rw (h, c) (ground arith)
unblamed e (other_status h s a b d) = rw s (ground (arith, a, b, d))

-- A request that was cancelled or ran into a deadline, `os.ErrDeadlineExceeded` included, an error
-- that carries no refusal, and an HTTP status other than 401, 403 and 429 change nothing: whoever is
-- reported, no cooldown moves and no status call is made.
pub report_innocent :
    (p : Pool) (creds : Option ℕ) (e : GoError) (now later : ℕ)
    → IsInnocent e
    → report p creds 0 (some e) now later ≡ (false, p)
unfolding report
report_innocent p creds e now later h = rw (unblamed e h) refl

-- Nor does a report about a credential that the pool does not hold.
pub report_stranger :
    (p : Pool) (creds : Option ℕ) (status : ℕ) (err : Option GoError) (now later : ℕ)
    → index_locked p creds ≡ none
    → report p creds status err now later ≡ (false, p)
unfolding report
report_stranger p creds status err now later gone =
    stranger (report_status status err) (cooldown (report_status status err))
  where
    stranger : (code cool : Option ℕ) → report_refusal p creds code cool now later ≡ (false, p)
    stranger code none = refl
    stranger code (some cool) = rw (gone, report_refusal) refl
