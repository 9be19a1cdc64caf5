-- ===== src/Dashboard/Tokens.antt =====
-- internal/dashboard/auth.go: a session is worth something until it expires or the epoch moves on.
use devin2proxy.Prelude.{
  ℕ, ◌+◌, ◌≡◌, refl, sym, ap, ◌∙◌, false, ◌&&◌, Option, some, inl, inr, [], ◌∷◌, ◌++◌, ltb, ◌==◌,
  Bytes, bytes_eq, bytes_eq_refl, All, Option-cases, arith,
}
use devin2proxy.Dashboard.Store.{Store, Json, Files}
use devin2proxy.Dashboard.Session.{
  SessionPayload, Crypto, cut, sign, sign_payload, payload_at, session_secret, new_session,
  valid_session, check_session, check_signed, accepts_payload, unix, session_ttl,
}

-- What the panel relies on of `encoding/base64` and `encoding/json`.
pub record CryptoLaws (c : Crypto) : Type 0 where
  pub decode-encode : (b : Bytes) → c.raw_url_decode (c.raw_url_encode b) ≡ some b
  pub no_dot : (b : Bytes) → All (λ x. (x == b'.') ≡ false) (c.raw_url_encode b)
  pub unmarshal-marshal :
      (p : SessionPayload) (raw : Bytes)
      → c.marshal_payload p ≡ some raw
      → c.unmarshal_payload raw ≡ some p

pub cut-append :
    (sep : ℕ) (l r : Bytes)
    → All (λ x. (x == sep) ≡ false) l
    → cut sep (l ++ (sep ∷ r)) ≡ some (l, r)
unfolding cut
cut-append sep [] r h = ground arith
cut-append sep (b ∷ l) r h = rw h.0 (rw (cut-append sep l r h.1) refl)

module _ (c : Crypto) (laws : CryptoLaws c) where
  -- A value that was signed with this secret is accepted as its payload is.
  check_session-sign :
      (secret payload : Bytes) (p : SessionPayload) (epoch now : ℕ)
      → c.marshal_payload p ≡ some payload
      → check_session c (some secret) epoch now (cut b'.' (sign c secret payload))
        ≡ ((p.epoch == epoch) && ltb (unix now) p.exp)
  unfolding sign check_session check_signed accepts_payload
  check_session-sign secret payload p epoch now e =
      rw
        (cut-append b'.' (c.raw_url_encode payload) (c.raw_url_encode (c.hmac secret payload))
          (laws.no_dot payload))
        (rw (laws.decode-encode payload, laws.decode-encode (c.hmac secret payload))
          (rw (bytes_eq_refl (c.hmac secret payload), laws.unmarshal-marshal p payload e) refl))

  -- What a minted value is.
  sign_payload-some :
      (key t : Bytes) (p : SessionPayload)
      → sign_payload c key p ≡ some t
      → (raw : Bytes) × (c.marshal_payload p ≡ some raw) × (t ≡ sign c key raw)
  unfolding sign_payload
  sign_payload-some key t p h = elim (Option-cases (c.marshal_payload p)) [
    | inl e ↦ ground (arith, h, e)
    | inr (raw, e) ↦ (raw, e, ground (arith, h, e))
  ]

  -- The secret that a call hands out is the one in the store it leaves.
  session_secret-some :
      (j : Json) (a : Files) (random : Option Bytes) (s : Store) (key : Bytes)
      → (session_secret c j a random s).0 ≡ some key
      → c.raw_std_decode (session_secret c j a random s).1.contents.session_secret ≡ some key
  unfolding session_secret
  session_secret-some j a random s key h = ground (arith, h)

  session_secret-held :
      (j : Json) (a : Files) (random : Option Bytes) (s : Store)
      → bytes_eq s.contents.session_secret [] ≡ false
      → session_secret c j a random s ≡ (c.raw_std_decode s.contents.session_secret, s)
  unfolding session_secret
  session_secret-held j a random s h = ground (arith, h)

  new_session-some :
      (j : Json) (a : Files) (random : Option Bytes) (n t : Bytes) (s : Store) (now : ℕ)
      → (new_session c j a random (some n) s now).0 ≡ some t
      → (key : Bytes) × ((session_secret c j a random s).0 ≡ some key)
        × (sign_payload c key
              (payload_at c (session_secret c j a random s).1.contents.session_epoch now n)
            ≡ some t)
  unfolding new_session
  new_session-some j a random n t s now h = elim (Option-cases (session_secret c j a random s).0) [
    | inl e ↦ ground (arith, h, e)
    | inr (key, e) ↦ (key, e, ground (arith, h, e))
  ]

  pub valid_session-held :
      (j : Json) (a : Files) (random : Option Bytes) (s : Store) (t : Bytes) (now : ℕ)
      → bytes_eq s.contents.session_secret [] ≡ false
      → valid_session c j a random s t now ≡ (
        check_session c
            (c.raw_std_decode s.contents.session_secret)
            s.contents.session_epoch
            now
            (cut b'.' t),
        s,
      )
  unfolding valid_session
  valid_session-held j a random s t now held =
      ap (λ r. (check_session c r.0 r.1.contents.session_epoch now (cut b'.' t), r.1))
        (session_secret-held j a random s held)

  module _ (j : Json) (a : Files) (random : Option Bytes) (s : Store) (n t : Bytes) (now : ℕ) where
    -- A value that `newSession` made is accepted by a store with the same secret exactly while the
    -- epoch is the one it was made in and twelve hours, in whole seconds, have not passed.
    pub valid_session-new_session :
        (new_session c j a random (some n) s now).0 ≡ some t
        → (s' : Store) (a' : Files) (random' : Option Bytes) (now' : ℕ)
        → s'.contents.session_secret
          ≡ (new_session c j a random (some n) s now).1.contents.session_secret
        → bytes_eq s'.contents.session_secret [] ≡ false
        → (valid_session c j a' random' s' t now').0 ≡ (
            ((new_session c j a random (some n) s now).1.contents.session_epoch
              == s'.contents.session_epoch)
            && ltb (unix now') (unix (now + session_ttl)))
    valid_session-new_session minted s' a' random' now' same held =
        let (key, drawn, signed) = new_session-some j a random n t s now minted in
        let s1 = (session_secret c j a random s).1 in
        let p = payload_at c s1.contents.session_epoch now n in
        let (raw, marshalled, made) = sign_payload-some key t p signed in
        let kept : (new_session c j a random (some n) s now).1 ≡ s1 = unfold new_session in refl in
        let decoded : c.raw_std_decode s'.contents.session_secret ≡ some key =
          ap c.raw_std_decode (same ∙ ap (λ x. x.contents.session_secret) kept)
          ∙ session_secret-some j a random s key drawn in
        ap (λ r. r.0) (valid_session-held j a' random' s' t now' held)
        ∙ (λ i. check_session c (decoded i) s'.contents.session_epoch now' (cut b'.' (made i)))
        ∙ check_session-sign key raw p s'.contents.session_epoch now' marshalled
        ∙ ap
            (λ (x : Store).
              (x.contents.session_epoch == s'.contents.session_epoch)
              && ltb (unix now') (unix (now + session_ttl)))
            (sym kept)
