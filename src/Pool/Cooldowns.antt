-- ===== src/Pool/Cooldowns.antt =====
-- internal/devin/pool.go: what a refusal and a status call do to an account's cooldown.
use devin2proxy.Prelude.{
  ℕ, zero, suc, ◌+◌, Bool, true, false, not, ◌&&◌, ◌||◌, Option, none, some, List, [], ◌∷◌, ltb,
  ◌==◌, if◌then◌else◌, length, get_or, set, Bytes, bytes_eq, codes,
}
use devin2proxy.Errors.{GoError, HttpError, ConnectError, is_context_failure}
use devin2proxy.Status.{AccountStatus, reset_deadline}
use devin2proxy.Rotate
use devin2proxy.Rotate.{RotationCursor}
use devin2proxy.Pool.Accounts.{Pool, index_locked, cool_rejected, cool_rate_limited, max_quota_cool}

unfoldable pub status_from_connect_code : Bytes → ℕ
status_from_connect_code code =
    if bytes_eq code (codes "unauthenticated")
    then 401
    else if bytes_eq code (codes "permission_denied")
    then 403
    else if bytes_eq code (codes "resource_exhausted")
    then 429
    else 0

-- The status that `Report` goes by; `none` where it returns before it has one.
unfoldable pub error_status : Option HttpError → Option ConnectError → Option ℕ
unfolding status_from_connect_code
error_status (some h) c = some h.status
error_status none (some c) = some (status_from_connect_code c.code)
error_status none none = none

unfoldable pub report_status : ℕ → Option GoError → Option ℕ
unfolding error_status is_context_failure
report_status status none = some status
report_status status (some e) = if is_context_failure e then none else error_status e.http e.connect

-- `cool`; `none` for a status that is no refusal.
unfoldable pub cooldown : Option ℕ → Option ℕ
cooldown none = none
cooldown (some status) =
    if status == 401 || status == 403
    then some cool_rejected
    else if status == 429
    then some cool_rate_limited
    else none

unfoldable pub quota_held_locked : Pool → ℕ → ℕ → Bool
quota_held_locked p idx now = ltb now (get_or p.quota_cool_until idx 0)

-- The loop of the pool-wide guard over the slots from `i` on, of which `rounds` are left.
unfoldable pub clamp_all : (ℕ → Bool) → RotationCursor → ℕ → ℕ → ℕ → RotationCursor
clamp_all held c until zero i = c
clamp_all held c until (suc rounds) i =
    clamp_all held (if held i then c else (Rotate.clamp_cooling c i until).1) until rounds (i + 1)

unfoldable pub is_systemic : Pool → RotationCursor → ℕ → ℕ → Bool → Bool
is_systemic p rot now cool already =
    ltb 1 (length p.entries)
    && not already
    && ltb cool_rate_limited cool
    && Rotate.available_locked rot now == 0

-- The part of `Report` under the rotation lock.
unfoldable pub record_refusal : Pool → ℕ → ℕ → ℕ → Pool
unfolding clamp_all is_systemic quota_held_locked
record_refusal p idx cool now =
    let (already, rot) = Rotate.cool_off p.rot idx now (now + cool) in
    record p {
      rot =
          if is_systemic p rot now cool already
          then clamp_all (λ i. quota_held_locked p i now) rot (now + cool_rate_limited)
              (length p.entries) 0
          else rot;
    }

-- `refreshQuota` up to the start of its goroutine; the answer says whether one was started.
unfoldable pub begin_refresh : Pool → ℕ → ℕ → Bool × Pool
unfolding quota_held_locked
begin_refresh p idx now =
    if not p.status || get_or p.busy idx false || quota_held_locked p idx now
    then (false, p)
    else (true, record p { busy = set p.busy idx true })

unfoldable pub refresh_quota : Pool → Option ℕ → ℕ → Bool × Pool
unfolding index_locked begin_refresh
refresh_quota p creds now = elim (index_locked p creds) [
  | none ↦ (false, p)
  | some idx ↦ begin_refresh p idx now
]

unfoldable pub report_refusal : Pool → Option ℕ → Option ℕ → Option ℕ → ℕ → ℕ → Bool × Pool
unfolding index_locked record_refusal refresh_quota
report_refusal p creds status none now later = (false, p)
report_refusal p creds status (some cool) now later = elim (index_locked p creds) [
  | none ↦ (false, p)
  | some idx ↦
      let p' = record_refusal p idx cool now in
      elim status [
        | none ↦ (false, p')
        | some code ↦ if code == 429 then refresh_quota p' creds later else (false, p')
      ]
]

-- `Report`. The clock is read once for the cooldown and once by `refreshQuota`.
unfoldable pub report : Pool → Option ℕ → ℕ → Option GoError → ℕ → ℕ → Bool × Pool
unfolding report_status cooldown report_refusal
report p creds status err now later =
    let code = report_status status err in report_refusal p creds code (cooldown code) now later

unfoldable pub set_status_source : Pool → Bool → Pool
set_status_source p set_up = record p { status = set_up }

unfoldable pub clear_slot : Pool → ℕ → ℕ → Pool
clear_slot p idx now = record p {
  rot =
      if ltb now (Rotate.deadline p.rot idx)
      then record p.rot { cooling = set p.rot.cooling idx 0 }
      else p.rot;
  quota_cool_until =
      if ltb now (get_or p.quota_cool_until idx 0)
      then set p.quota_cool_until idx 0
      else p.quota_cool_until;
}

-- `ClearCooldown`: whether it lifted a rotation cooldown and a quota hold.
unfoldable pub clear_cooldown : Pool → Option ℕ → ℕ → (Bool × Bool) × Pool
unfolding index_locked clear_slot
clear_cooldown p creds now = elim (index_locked p creds) [
  | none ↦ ((false, false), p)
  | some idx ↦ (
    (ltb now (Rotate.deadline p.rot idx), ltb now (get_or p.quota_cool_until idx 0)),
    clear_slot p idx now,
  )
]

unfoldable pub count_held : ℕ → List ℕ → ℕ
count_held now [] = 0
count_held now (t ∷ ts) = let rest = count_held now ts in if ltb now t then rest + 1 else rest

unfoldable pub quota_held : Pool → ℕ → ℕ
unfolding count_held
quota_held p now = count_held now p.quota_cool_until

unfoldable pub hold_slot : Pool → ℕ → ℕ → ℕ → Pool
hold_slot p idx now until =
    let (extended, rot) = Rotate.extend_cooling p.rot idx now until in
    if extended
    then record p { rot = rot; quota_cool_until = set p.quota_cool_until idx until }
    else p

unfoldable pub apply_quota : Pool → Option ℕ → AccountStatus → ℕ → Pool
unfolding index_locked hold_slot
apply_quota p creds st now =
    let until = reset_deadline st now in
    let capped = if ltb (now + max_quota_cool) until then now + max_quota_cool else until in
    elim (index_locked p creds) [
      | none ↦ p
      | some idx ↦ if until == 0 then p else hold_slot p idx now capped
    ]

unfoldable pub release_busy : Pool → Option ℕ → Pool
unfolding index_locked
release_busy p creds = elim (index_locked p creds) [
  | none ↦ p
  | some idx ↦ record p { busy = set p.busy idx false }
]
