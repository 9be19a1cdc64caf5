-- ===== src/Dashboard/Pacing.antt =====
-- internal/dashboard: a history of logins, one at a time, never outruns the ladder of bans.
use Prim.Native.Nat.{ℕ, zero, suc}
use devin2proxy.Prelude.{
  ◌+◌, ◌≤◌, ◌≡◌, refl, sym, ap, ◌∙◌, false, Option, none, some, inl, inr, Bytes, bytes_eq,
  Bool-cases, Option-cases, arith, subst, ltb, if◌then◌else◌,
}
use devin2proxy.Dashboard.Store.{
  BanRecord, Store, Json, Files, save, ban_for, put_ban, set_bans, keep_fresh, forget_stale_bans,
}
use devin2proxy.Dashboard.Bans.{
  ban_duration, strike, state_of, login_state_for, record_login_failure,
}
use devin2proxy.Dashboard.Ladder.{ban_duration_mono}
use devin2proxy.Dashboard.Session.{Crypto, session_secret, draw_secret}

-- The time that the bans of the first `n` failures take together.
pub waits : ℕ → ℕ
waits zero = 0
waits (suc n) = waits n + ban_duration n

-- A record whose ban runs from its last failure, and whose failures waited out every earlier ban
-- since `start`.
pub record IsPaced (start now : ℕ) (rec : BanRecord) : Type 0 where
  pub some_strike : 1 ≤ rec.strikes
  pub ban_runs :
      rec.until
      ≡ (if ltb 0 (ban_duration rec.strikes) then rec.last + ban_duration rec.strikes else 0)
  pub waited : start + waits rec.strikes ≤ rec.last
  pub past : rec.last ≤ now

abbrev pub AllPaced : ℕ → ℕ → Store → Type 0
AllPaced start now s =
    (addr : Bytes) (rec : BanRecord) → s.contents.bans addr ≡ some rec → IsPaced start now rec

pub save-bans : (j : Json) (a : Files) (s : Store) → (save j a s).1.contents.bans ≡ s.contents.bans
unfolding save
save-bans j a s = ground arith

pub session_secret-bans :
    (c : Crypto) (j : Json) (a : Files) (random : Option Bytes) (s : Store)
    → (session_secret c j a random s).1.contents.bans ≡ s.contents.bans
unfolding session_secret draw_secret
session_secret-bans c j a none s = ground arith
session_secret-bans c j a (some random) s =
    let s' : Store = record s {
      contents = record s.contents { session_secret = c.raw_std_encode random };
    } in
    ground (arith, save-bans j a s')

login_state_for-some :
    (s : Store) (addr : Bytes) (now : ℕ) (rec : BanRecord)
    → s.contents.bans addr ≡ some rec
    → login_state_for s addr now ≡ state_of rec now
unfolding login_state_for
login_state_for-some s addr now rec e = rw (e, login_state_for) refl

module _ (start t now later : ℕ) (in_order : t ≤ now) (goes_on : now ≤ later) where
  strike-IsPaced :
      (rec : BanRecord)
      → IsPaced start t rec
      → ltb now rec.until ≡ false
      → IsPaced start later (strike rec later)
  unfolding strike waits
  strike-IsPaced rec v free =
      let up : suc rec.strikes ≡ rec.strikes + 1 = omega arith in
      let grows =
        subst (λ n. ban_duration rec.strikes ≤ ban_duration n) up (ban_duration_mono rec.strikes) in
      let runs = v.ban_runs in
      let wait : waits (rec.strikes + 1) ≡ waits rec.strikes + ban_duration rec.strikes =
        ap waits (sym up) in
      let waited : start + waits (rec.strikes + 1) ≤ later =
        ground (arith, v.waited, v.past, runs, wait, free) in
      record {
        some_strike = omega arith;
        ban_runs = ground (arith, runs, grows);
        waited = waited;
        past = omega arith;
      }

  first-IsPaced :
      start ≤ later
      → IsPaced start later (strike (record { strikes = 0; until = 0; last = 0 }) later)
  unfolding strike waits ban_duration
  first-IsPaced begun = record {
    some_strike = omega arith;
    ban_runs = refl;
    waited = omega arith;
    past = omega arith;
  }

  later-IsPaced : (rec : BanRecord) → IsPaced start t rec → IsPaced start later rec
  later-IsPaced rec v = record {
    some_strike = v.some_strike;
    ban_runs = v.ban_runs;
    waited = v.waited;
    past = omega (arith, v.past);
  }

  keep_fresh-IsPaced :
      (o : Option BanRecord) (rec : BanRecord)
      → ((r : BanRecord) → o ≡ some r → IsPaced start later r)
      → keep_fresh later o ≡ some rec
      → IsPaced start later rec
  unfolding keep_fresh
  keep_fresh-IsPaced none rec paced h = cc
  keep_fresh-IsPaced (some r) rec paced h =
      let same : r ≡ rec = ground (arith, h) in subst (IsPaced start later) same (paced r refl)

  -- One failure at an address whose ban does not run at `now`.
  struck-IsPaced :
      (s : Store) (addr : Bytes)
      → start ≤ later
      → (login_state_for s addr now).banned ≡ false
      → AllPaced start t s
      → IsPaced start later (strike (ban_for s addr) later)
  unfolding ban_for state_of
  struck-IsPaced s addr begun free all = elim (Option-cases (s.contents.bans addr)) [
    | inl e ↦ rw (e, ban_for) (first-IsPaced begun)
    | inr (rec, e) ↦
        rw (e, ban_for)
          (strike-IsPaced rec (all addr rec e)
            (ap (λ x. x.banned) (sym (login_state_for-some s addr now rec e)) ∙ free))
  ]

  pub record_login_failure-AllPaced :
      (j : Json) (a : Files) (s : Store) (addr : Bytes)
      → start ≤ later
      → (login_state_for s addr now).banned ≡ false
      → AllPaced start t s
      → AllPaced start later (record_login_failure j a s addr later).1
  unfolding record_login_failure forget_stale_bans
  record_login_failure-AllPaced j a s addr begun free all key rec h =
      let rec' = strike (ban_for s addr) later in
      let s' = set_bans s (put_ban addr (some rec') s.contents.bans) in
      keep_fresh-IsPaced (s'.contents.bans key) rec
        (λ r e. elim (Bool-cases (bytes_eq key addr)) [
          | inl here ↦
              subst (IsPaced start later) (ground (arith, e, here))
                (struck-IsPaced s addr begun free all)
          | inr other ↦ later-IsPaced r (all key r (ground (arith, e, other)))
        ])
        (ap (λ b. b key) (sym (save-bans j a (forget_stale_bans s' later))) ∙ h)

  pub kept-AllPaced :
      (s s' : Store)
      → s'.contents.bans ≡ s.contents.bans
      → AllPaced start t s
      → AllPaced start later s'
  kept-AllPaced s s' e all key rec h = later-IsPaced rec (all key rec (ap (λ b. b key) (sym e) ∙ h))
