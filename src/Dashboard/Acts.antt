-- ===== src/Dashboard/Acts.antt =====
-- internal/dashboard: what requests do to the session secret and the session epoch of the store.
use devin2proxy.Prelude.{
  ℕ, ◌+◌, ◌≤◌, ◌≡◌, sym, subst, List, ◌∷◌, Bool-cases, Option-cases, refl, ap, ◌∙◌, inl, inr, false,
  Option, none, some, [], Bytes, bytes_eq, codes, cut_prefix, trim_space, arith,
}
use devin2proxy.Dashboard.Store.{
  PasswordRecord, Store, Json, Files, save, set_bans, put_ban, set_password, set_accounts,
  set_proxies, forget_stale_bans,
}
use devin2proxy.Dashboard.Bans.{record_login_failure, record_login_success}
use devin2proxy.Dashboard.Session.{session_secret, new_session, valid_session}
use devin2proxy.Dashboard.Login.{
  fail_login, sign_in, finish_login, Verdict, turned_away, wrong, right, client_addr, Panel, Chance,
  Request, has_cookie, has_bearer, authenticated, guard, handle_logout,
}

save_secret :
    (j : Json) (a : Files) (s : Store)
    → ((save j a s).1.contents.session_secret ≡ s.contents.session_secret)
      × ((save j a s).1.contents.session_epoch ≡ s.contents.session_epoch)
unfolding save
save_secret j a s = (ground arith, ground arith)

pub handle_logout-epoch :
    (d : Panel) (ch : Chance) (s : Store)
    → ((handle_logout d ch s).1.contents.session_secret ≡ s.contents.session_secret)
      × ((handle_logout d ch s).1.contents.session_epoch ≡ s.contents.session_epoch + 1)
unfolding handle_logout
handle_logout-epoch d ch s =
    save_secret d.json ch.files
      (record s { contents = record s.contents { session_epoch = s.contents.session_epoch + 1 } })

-- The secret stays, and the epoch does not fall.
pub record Keeps (s s' : Store) : Type 0 where
  pub secret : s'.contents.session_secret ≡ s.contents.session_secret
  pub epoch : s.contents.session_epoch ≤ s'.contents.session_epoch

-- What a request, or the start-up, may do to the store. A login comes in its two parts, of which only
-- the second one writes, so that any logins may overlap.
pub data Act : Type 0 where
  finishes_login : Chance → Request → Verdict → ℕ → Act
  logs_out : Chance → Act
  asks : Chance → Request → ℕ → Act
  sets_password : Files → PasswordRecord → Act
  sets_accounts sets_proxies : Files → List Bytes → Act

unfoldable pub act : Panel → Store → Act → Store
act d s (finishes_login ch r verdict later) = (finish_login d ch s r verdict later).1
act d s (logs_out ch) = (handle_logout d ch s).1
act d s (asks ch r now) = (guard d ch s r now).1
act d s (sets_password a rec) = (set_password d.json a s rec).1
act d s (sets_accounts a tokens) = (set_accounts d.json a s tokens).1
act d s (sets_proxies a specs) = (set_proxies d.json a s specs).1

unfoldable pub run_acts : Panel → Store → List Act → Store
unfolding act
run_acts d s [] = s
run_acts d s (x ∷ xs) = run_acts d (act d s x) xs

save-Keeps : (j : Json) (a : Files) (s : Store) → Keeps s (save j a s).1
save-Keeps j a s = record {
  secret = (save_secret j a s).0;
  epoch = ground (arith, (save_secret j a s).1);
}

module _ (d : Panel) where
  session_secret-store :
      (a : Files) (random : Option Bytes) (s : Store)
      → bytes_eq s.contents.session_secret [] ≡ false
      → (session_secret d.crypto d.json a random s).1 ≡ s
  unfolding session_secret
  session_secret-store a random s held = ground (arith, held)

  valid_session-store :
      (a : Files) (random : Option Bytes) (s : Store) (t : Bytes) (now : ℕ)
      → bytes_eq s.contents.session_secret [] ≡ false
      → (valid_session d.crypto d.json a random s t now).1 ≡ s
  unfolding valid_session session_secret
  valid_session-store a random s t now held = ground (arith, held)

  module _ (ch : Chance) (r : Request) (now : ℕ) where
    has_cookie-store :
        (s : Store)
        → bytes_eq s.contents.session_secret [] ≡ false
        → (has_cookie d ch s r now).1 ≡ s
    unfolding has_cookie
    has_cookie-store s held = elim (Option-cases r.cookie) [
      | inl e ↦ rw (e, has_cookie) refl
      | inr (t, e) ↦ rw (e, has_cookie) (valid_session-store ch.files ch.secret s t now held)
    ]

    has_bearer-store :
        (s : Store)
        → bytes_eq s.contents.session_secret [] ≡ false
        → (has_bearer d ch s r now).1 ≡ s
    unfolding has_bearer
    has_bearer-store s held = elim (Option-cases (cut_prefix r.authorization (codes "Bearer "))) [
      | inl e ↦ rw (e, has_bearer) refl
      | inr (t, e) ↦
          rw (e, has_bearer)
            (valid_session-store ch.later_files ch.later_secret s (trim_space t) now held)
    ]

    authenticated-store :
        (s : Store)
        → bytes_eq s.contents.session_secret [] ≡ false
        → (authenticated d ch s r now).1 ≡ s
    unfolding authenticated
    authenticated-store s held =
        let same = has_cookie-store s held in
        elim (Bool-cases (has_cookie d ch s r now).0) [
          | inl known ↦ rw known same
          | inr unknown ↦ rw unknown (
              has_bearer-store (has_cookie d ch s r now).1
                (ap (λ x. bytes_eq x.contents.session_secret []) same ∙ held)
              ∙ same)
        ]

    guard-store :
        (s : Store) → bytes_eq s.contents.session_secret [] ≡ false → (guard d ch s r now).1 ≡ s
    unfolding guard
    guard-store s held = ground (arith, authenticated-store s held)

  finish_login-Keeps :
      (ch : Chance) (r : Request) (verdict : Verdict) (later : ℕ) (s : Store)
      → bytes_eq s.contents.session_secret [] ≡ false
      → Keeps s (finish_login d ch s r verdict later).1
  unfolding finish_login fail_login sign_in record_login_failure record_login_success new_session
      forget_stale_bans
  finish_login-Keeps ch r (turned_away status) later s held = record {
    secret = refl;
    epoch = omega arith;
  }
  finish_login-Keeps ch r wrong later s held = record {
    secret = (save_secret d.json ch.files _).0;
    epoch = ground (arith, (save_secret d.json ch.files _).1);
  }
  finish_login-Keeps ch r right later s held =
      let s0 = set_bans s (put_ban (client_addr d.net r) none s.contents.bans) in
      let k = save-Keeps d.json ch.files s0 in
      let s1 = (save d.json ch.files s0).1 in
      let same =
        session_secret-store ch.later_files ch.secret s1
          (ap (λ b. bytes_eq b []) k.secret ∙ held) in
      subst (Keeps s) (sym same) (record { secret = k.secret; epoch = k.epoch })

  act-Keeps :
      (s : Store) (x : Act) → bytes_eq s.contents.session_secret [] ≡ false → Keeps s (act d s x)
  unfolding act set_password set_accounts set_proxies
  act-Keeps s (finishes_login ch r verdict later) held =
      finish_login-Keeps ch r verdict later s held
  act-Keeps s (logs_out ch) held =
      let e = handle_logout-epoch d ch s in record { secret = e.0; epoch = omega (arith, e.1) }
  act-Keeps s (asks ch r now) held =
      subst (Keeps s) (sym (guard-store ch r now s held))
        (record { secret = refl; epoch = omega arith })
  act-Keeps s (sets_password a rec) held =
      let k =
        save-Keeps d.json a (record s { contents = record s.contents { password = some rec } }) in
      record { secret = k.secret; epoch = k.epoch }
  act-Keeps s (sets_accounts a tokens) held =
      let k =
        save-Keeps d.json a (record s { contents = record s.contents { accounts = tokens } }) in
      record { secret = k.secret; epoch = k.epoch }
  act-Keeps s (sets_proxies a specs) held =
      let k =
        save-Keeps d.json a (record s { contents = record s.contents { proxies = some specs } }) in
      record { secret = k.secret; epoch = k.epoch }

  pub run_acts-Keeps :
      (xs : List Act) (s : Store)
      → bytes_eq s.contents.session_secret [] ≡ false
      → Keeps s (run_acts d s xs)
  unfolding run_acts
  run_acts-Keeps [] s held = record { secret = refl; epoch = omega arith }
  run_acts-Keeps (x ∷ xs) s held =
      let one = act-Keeps s x held in
      let rest = run_acts-Keeps xs (act d s x) (ap (λ b. bytes_eq b []) one.secret ∙ held) in
      record { secret = rest.secret ∙ one.secret; epoch = omega (arith, one.epoch, rest.epoch) }
