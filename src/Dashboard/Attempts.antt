-- ===== src/Dashboard/Attempts.antt =====
-- internal/dashboard: sequences of login requests, each answered before the next is read.
use Prim.Native.Nat.{ℕ}
use devin2proxy.Prelude.{
  ◌≤◌, ◌≡◌, refl, sym, ap, ◌∙◌, false, none, some, inl, inr, List, [], ◌∷◌, Bytes, bytes_eq,
  Bool-cases, Option-cases, arith,
}
use devin2proxy.Dashboard.Store.{BanRecord, Store, put_ban, set_bans, save}
use devin2proxy.Dashboard.Bans.{login_state_for, record_login_success}
use devin2proxy.Dashboard.Session.{new_session, verify_password}
use devin2proxy.Dashboard.Login.{
  Panel, Chance, Request, client_addr, refuse_login, fail_login, sign_in, judge_login, finish_login,
  handle_login,
}
use devin2proxy.Dashboard.Pacing.{
  IsPaced, AllPaced, save-bans, session_secret-bans, record_login_failure-AllPaced, kept-AllPaced,
}

-- A login request and the two times at which the clock is read for it.
pub record Attempt : Type 0 where
  pub request : Request
  pub chance : Chance
  pub now : ℕ
  pub later : ℕ

unfoldable pub run_logins : Panel → Store → List Attempt → Store
unfolding handle_login
run_logins d s [] = s
run_logins d s (x ∷ xs) = run_logins d (handle_login d x.chance s x.request x.now x.later).1 xs

-- The clock does not go back.
abbrev pub InOrder : ℕ → List Attempt → Type 0
InOrder t [] = Unit {0}
InOrder t (x ∷ xs) = (t ≤ x.now) × (x.now ≤ x.later) × InOrder x.later xs

abbrev pub end_time : ℕ → List Attempt → ℕ
end_time t [] = t
end_time t (x ∷ xs) = end_time x.later xs

-- A request that is not refused before the body is not under a ban.
refuse_login-none :
    (d : Panel) (s : Store) (r : Request) (now : ℕ)
    → refuse_login d s r now ≡ none
    → (login_state_for s (client_addr d.net r) now).banned ≡ false
unfolding refuse_login
refuse_login-none d s r now h = ground (arith, h)

module _ (d : Panel) (ch : Chance) (s : Store) (r : Request) (start t now later : ℕ) where
  module _ (in_order : t ≤ now) (goes_on : now ≤ later) (all : AllPaced start t s) where
    sign_in-AllPaced : AllPaced start later (sign_in d ch s r later).1
    unfolding sign_in new_session record_login_success
    sign_in-AllPaced key rec h =
        let s0 = set_bans s (put_ban (client_addr d.net r) none s.contents.bans) in
        let s1 = (save d.json ch.files s0).1 in
        let e =
          session_secret-bans d.crypto d.json ch.later_files ch.secret s1
          ∙ save-bans d.json ch.files s0 in
        let held : s0.contents.bans key ≡ some rec = ap (λ b. b key) (sym e) ∙ h in
        kept-AllPaced start t now later in_order goes_on s s refl all key rec
          (elim (Bool-cases (bytes_eq key (client_addr d.net r))) [
            | inl here ↦ ground (arith, held, here)
            | inr other ↦ ground (arith, held, other)
          ])

    fail_login-AllPaced :
        start ≤ later
        → refuse_login d s r now ≡ none
        → AllPaced start later (fail_login d ch s r later).1
    unfolding fail_login
    fail_login-AllPaced begun free =
        record_login_failure-AllPaced start t now later in_order goes_on d.json ch.files s
          (client_addr d.net r) begun (refuse_login-none d s r now free) all

    handle_login-AllPaced : start ≤ t → AllPaced start later (handle_login d ch s r now later).1
    unfolding handle_login judge_login finish_login
    handle_login-AllPaced begun =
        let same = kept-AllPaced start t now later in_order goes_on s s refl all in
        elim (Option-cases (refuse_login d s r now)) [
          | inr (status, e) ↦ rw (e, judge_login) same
          | inl free ↦ elim (Option-cases r.password) [
            | inl e ↦ rw (free, judge_login) (rw e same)
            | inr (password, e) ↦
                elim (Bool-cases (verify_password d.crypto s.contents.password password)) [
                  | inl good ↦ rw (free, judge_login) (rw (e, good) sign_in-AllPaced)
                  | inr bad ↦
                      rw (free, judge_login) (rw (e, bad) (fail_login-AllPaced (omega arith) free))
                ]
          ]
        ]

run_logins-AllPaced :
    (d : Panel) (start t : ℕ) (s : Store) (xs : List Attempt)
    → start ≤ t
    → InOrder t xs
    → AllPaced start t s
    → AllPaced start (end_time t xs) (run_logins d s xs)
unfolding run_logins
run_logins-AllPaced d start t s [] begun order all = all
run_logins-AllPaced d start t s (x ∷ xs) begun order all =
    run_logins-AllPaced d start x.later (handle_login d x.chance s x.request x.now x.later).1 xs
      (omega (arith, order.0, order.1)) order.2
      (handle_login-AllPaced d x.chance s x.request start t x.now x.later order.0 order.1 all begun)

-- After any sequence of logins, each answered before the next is read, on a clock that does not go
-- back and from a store without bans, an address with n failures on record has waited out the bans of its first n - 1 failures since the
-- start, and its ban, if n has one, runs from its last failure.
pub run_logins-IsPaced :
    (d : Panel) (start : ℕ) (s : Store) (xs : List Attempt) (addr : Bytes) (rec : BanRecord)
    → InOrder start xs
    → ((key : Bytes) → s.contents.bans key ≡ none)
    → (run_logins d s xs).contents.bans addr ≡ some rec
    → IsPaced start (end_time start xs) rec
run_logins-IsPaced d start s xs addr rec order empty h =
    run_logins-AllPaced d start start s xs (omega arith) order (λ key r e. cc (empty key)) addr rec
      h
