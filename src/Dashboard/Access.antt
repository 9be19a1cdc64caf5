-- ===== src/Dashboard/Access.antt =====
-- internal/dashboard: who the guard lets through once a session has been signed out.
use devin2proxy.Prelude.{
  ℕ, ◌+◌, ◌≡◌, List, ◌≢◌, refl, ap, ◌∙◌, ◌⊎◌, inl, inr, true, false, ◌&&◌, ltb, ◌==◌, Option, none,
  some, [], Bytes, bytes_eq, codes, cut_prefix, trim_space, arith, if◌then◌else◌,
}
use devin2proxy.Dashboard.Store.{Store, Files}
use devin2proxy.Dashboard.Session.{new_session, valid_session, unix, session_ttl}
use devin2proxy.Dashboard.Tokens.{CryptoLaws, valid_session-held, valid_session-new_session}
use devin2proxy.Dashboard.Login.{
  Panel, Chance, Request, passed_on, has_cookie, has_bearer, authenticated, guard, handle_logout,
}
use devin2proxy.Dashboard.Acts.{Act, run_acts, run_acts-Keeps, handle_logout-epoch}

-- The request shows no session but `t`.
pub record ShowsOnly (t : Bytes) (r : Request) : Type 0 where
  pub by_cookie : (r.cookie ≡ none) ⊎ (r.cookie ≡ some t)
  pub by_bearer :
      (cut_prefix r.authorization (codes "Bearer ") ≡ none)
      ⊎ ((token : Bytes) × (cut_prefix r.authorization (codes "Bearer ") ≡ some token)
          × (trim_space token ≡ t))

module _ (d : Panel) (ch : Chance) (s : Store) (r : Request) (t : Bytes) (now : ℕ) where
  module _
      (stale : (a : Files) (random : Option Bytes)
        → valid_session d.crypto d.json a random s t now ≡ (false, s))
      (shows : ShowsOnly t r) where
    has_cookie-stale : has_cookie d ch s r now ≡ (false, s)
    unfolding has_cookie
    has_cookie-stale = elim shows.by_cookie [
      | inl e ↦ rw e refl
      | inr e ↦ rw e (stale ch.files ch.secret)
    ]

    has_bearer-stale : has_bearer d ch s r now ≡ (false, s)
    unfolding has_bearer
    has_bearer-stale = elim shows.by_bearer [
      | inl e ↦ rw e refl
      | inr (token, e, trims) ↦ rw e (rw trims (stale ch.later_files ch.later_secret))
    ]

    authenticated-stale : authenticated d ch s r now ≡ (false, s)
    unfolding authenticated
    authenticated-stale =
        ap (λ x. if x.0 then (true, x.1) else has_bearer d ch x.1 r now) has_cookie-stale
        ∙ has_bearer-stale

    guard-stale : (guard d ch s r now).0 ≢ passed_on
    unfolding guard
    guard-stale h = ground (arith, h, authenticated-stale)

-- What `newSession` answers, and the store that it leaves.
abbrev pub making : Panel → Chance → Store → Bytes → ℕ → Option Bytes × Store
making d ch s n now = new_session d.crypto d.json ch.files ch.secret (some n) s now

module _ (d : Panel) (laws : CryptoLaws d.crypto) where
  module _ (ch : Chance) (s : Store) (n t : Bytes) (now : ℕ) where
    -- With encodings that give back what they encoded, and a session secret in the store: after a
    -- logout the guard lets no request through whose only session is one that was made before it,
    -- whatever other requests came between, before and after the logout, in whatever order they
    -- wrote, and whether their changes could be saved or not, as long as the panel runs.
    pub guard-handle_logout :
        (before : List Act) (out : Chance) (after : List Act) (later : Chance) (now' : ℕ)
        (r : Request)
        → (making d ch s n now).0 ≡ some t
        → bytes_eq (making d ch s n now).1.contents.session_secret [] ≡ false
        → ShowsOnly t r
        → let s1 = run_acts d (making d ch s n now).1 before in
          let s2 = (handle_logout d out s1).1 in
          (guard d later (run_acts d s2 after) r now').0 ≢ passed_on
    guard-handle_logout before out after later now' r minted held shows =
        let made = (making d ch s n now).1 in
        let s1 = run_acts d made before in
        let s2 = (handle_logout d out s1).1 in
        let s3 = run_acts d s2 after in
        let k1 = run_acts-Keeps d before made held in
        let moved = handle_logout-epoch d out s1 in
        let same2 = moved.0 ∙ k1.secret in
        let k3 = run_acts-Keeps d after s2 (ap (λ b. bytes_eq b []) same2 ∙ held) in
        let same = k3.secret ∙ same2 in
        let held' = ap (λ b. bytes_eq b []) same ∙ held in
        let newer : (made.contents.session_epoch == s3.contents.session_epoch) ≡ false =
          ground (arith, k1.epoch, moved.1, k3.epoch) in
        guard-stale d later s3 r t now'
          (λ a random. λ i. (
            (valid_session-new_session d.crypto laws d.json ch.files ch.secret s n t now minted s3 a
                    random now' same held'
                  ∙ ap (λ b. b && ltb (unix now') (unix (now + session_ttl))) newer)
                i,
            ap (λ x. x.1) (valid_session-held d.crypto laws d.json a random s3 t now' held') i,
          ))
          shows
