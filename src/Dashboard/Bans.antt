-- ===== src/Dashboard/Bans.antt =====
-- internal/dashboard/auth.go: failed logins, and the ladder of bans that they climb.
use devin2proxy.Prelude.{
  ℕ, zero, suc, ◌+◌, ◌-◌, ◌*◌, Bool, false, none, some, ltb, leb, if◌then◌else◌, Bytes,
}
use devin2proxy.Dashboard.Store.{
  BanRecord, Store, Json, Files, second, save, ban_for, put_ban, set_bans, forget_stale_bans,
}

abbrev pub ban_after_failures : ℕ
ban_after_failures = 3

abbrev pub first_ban : ℕ
first_ban = 60 * second

abbrev pub max_ban : ℕ
max_ban = 24 * 60 * 60 * second

pub record LoginState : Type 0 where
  pub banned : Bool
  pub until : ℕ
  pub strikes : ℕ
  pub remaining : ℕ

unfoldable pub ban_attempts_left : ℕ → ℕ
ban_attempts_left strikes =
    if ltb strikes ban_after_failures then ban_after_failures - strikes else 0

-- The loop of `banDuration` with `rounds` rounds left.
unfoldable pub double_ban : ℕ → ℕ → ℕ
double_ban zero ban = ban
double_ban (suc rounds) ban =
    let rest = double_ban rounds (ban * 2) in if leb max_ban (ban * 2) then max_ban else rest

unfoldable pub ban_duration : ℕ → ℕ
unfolding double_ban
ban_duration strikes =
    if ltb strikes ban_after_failures
    then 0
    else double_ban (strikes - ban_after_failures) first_ban

-- The state that a record shows at `now`.
unfoldable pub state_of : BanRecord → ℕ → LoginState
unfolding ban_attempts_left
state_of rec now = record {
  banned = ltb now rec.until;
  until = if ltb now rec.until then rec.until else 0;
  strikes = rec.strikes;
  remaining = ban_attempts_left rec.strikes;
}

unfoldable pub login_state_for : Store → Bytes → ℕ → LoginState
unfolding state_of
login_state_for s addr now = elim (s.contents.bans addr) [
  | none ↦ record { banned = false; until = 0; strikes = 0; remaining = ban_after_failures }
  | some rec ↦ state_of rec now
]

unfoldable pub strike : BanRecord → ℕ → BanRecord
unfolding ban_duration
strike rec now =
    let ban = ban_duration (rec.strikes + 1) in
    record {
      strikes = rec.strikes + 1;
      until = if ltb 0 ban then now + ban else rec.until;
      last = now;
    }

-- `recordLoginFailure`; the error of the save is only logged.
unfoldable pub record_login_failure : Json → Files → Store → Bytes → ℕ → LoginState × Store
unfolding strike ban_for state_of forget_stale_bans save
record_login_failure j a s addr now =
    let rec = strike (ban_for s addr) now in
    let s' = set_bans s (put_ban addr (some rec) s.contents.bans) in
    (state_of rec now, (save j a (forget_stale_bans s' now)).1)

unfoldable pub record_login_success : Json → Files → Store → Bytes → Store
unfolding save
record_login_success j a s addr = (save j a (set_bans s (put_ban addr none s.contents.bans))).1
