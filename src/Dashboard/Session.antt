-- ===== src/Dashboard/Session.antt =====
-- internal/dashboard/auth.go: passwords and signed session cookies. The primitives of `crypto`,
-- `encoding/base64` and `encoding/json` are `Crypto`; randomness is handed in as the bytes read, and
-- `none` is its failure.
use devin2proxy.Prelude.{
  ℕ, ◌+◌, ◌*◌, ◌%◌, ◌/◌, Bool, true, false, ◌&&◌, not, Option, none, some, [], ◌∷◌, ◌++◌, ltb, ◌==◌,
  if◌then◌else◌, length, get_or, Bytes, bytes_eq, codes,
}
use devin2proxy.Dashboard.Store.{
  PasswordRecord, Store, Json, Files, SaveError, second, save, set_password,
}

pub record SessionPayload : Type 0 where
  pub epoch : ℕ
  pub exp : ℕ
  pub nonce : Bytes

pub record Crypto : Type 0 where
  -- `pbkdf2.Key` with SHA-256: password, salt, rounds, length
  pub derive : Bytes → Bytes → ℕ → ℕ → Option Bytes
  -- HMAC-SHA256: key, message
  pub hmac : Bytes → Bytes → Bytes
  pub raw_std_encode : Bytes → Bytes
  pub raw_std_decode : Bytes → Option Bytes
  pub raw_url_encode : Bytes → Bytes
  pub raw_url_decode : Bytes → Option Bytes
  pub marshal_payload : SessionPayload → Option Bytes
  pub unmarshal_payload : Bytes → Option SessionPayload

abbrev pub password_algo : Bytes
password_algo = codes "pbkdf2-sha256"

abbrev pub password_iterations : ℕ
password_iterations = 210000

abbrev pub password_key_len : ℕ
password_key_len = 32

abbrev pub min_password_length : ℕ
min_password_length = 8

-- `sessionTTL`
abbrev pub session_ttl : ℕ
session_ttl = 12 * 60 * 60 * second

-- `Unix`, of a time after 1970.
abbrev pub unix : ℕ → ℕ
unix t = t / second

pub data PasswordError : Type 0 where
  too_short no_randomness no_key : PasswordError
  not_saved : SaveError → PasswordError

pub data Hashed : Type 0 where
  hashed : PasswordRecord → Hashed
  unhashed : PasswordError → Hashed

unfoldable pub hash_password : Crypto → Bytes → Option Bytes → Hashed
hash_password c password none = unhashed no_randomness
hash_password c password (some salt) =
    elim (c.derive password salt password_iterations password_key_len) [
      | none ↦ unhashed no_key
      | some key ↦ hashed (record {
        algo = password_algo;
        iter = password_iterations;
        salt = c.raw_std_encode salt;
        hash = c.raw_std_encode key;
      })
    ]

-- The comparison, once salt and hash are decoded.
unfoldable pub matches_key : Crypto → ℕ → Bytes → Bytes → Bytes → Bool
matches_key c iter password salt want =
    elim (c.derive password salt (if iter == 0 then password_iterations else iter) (length want)) [
      | none ↦ false
      | some got ↦ bytes_eq got want
    ]

unfoldable pub verify_decoded : Crypto → ℕ → Bytes → Option Bytes → Option Bytes → Bool
unfolding matches_key
verify_decoded c iter password (some salt) (some want) = matches_key c iter password salt want
verify_decoded c iter password none want = false
verify_decoded c iter password (some salt) none = false

unfoldable pub verify_password : Crypto → Option PasswordRecord → Bytes → Bool
unfolding verify_decoded
verify_password c none password = false
verify_password c (some rec) password =
    not (bytes_eq rec.hash [])
    && not (bytes_eq rec.salt [])
    && verify_decoded c rec.iter password (c.raw_std_decode rec.salt) (c.raw_std_decode rec.hash)

-- The error, and the store.
unfoldable pub set_password_text :
    Crypto → Json → Files → Option Bytes → Store → Bytes → Option PasswordError × Store
unfolding hash_password set_password
set_password_text c j a random s password =
    if ltb (length password) min_password_length
    then (some too_short, s)
    else elim (hash_password c password random) [
      | unhashed e ↦ (some e, s)
      | hashed rec ↦
          let (e, s') = set_password j a s rec in
          (elim e [ none ↦ none | some why ↦ some (not_saved why) ], s')
    ]

abbrev pub alphabet : Bytes
alphabet = codes "abcdefghijkmnpqrstuvwxyzABCDEFGHJKLMNPQRSTUVWXYZ23456789"

-- The loop of `GeneratePassword`.
unfoldable pub spell : Bytes → Bytes
spell [] = []
spell (b ∷ raw) = get_or alphabet (b % length alphabet) 0 ∷ spell raw

-- `GeneratePassword`, for the random bytes of the password and of its salt.
unfoldable pub generate_password :
    Crypto
    → Json
    → Files
    → Option Bytes
    → Option Bytes
    → Store
    → (Bytes × Option PasswordError) × Store
unfolding spell set_password_text
generate_password c j a none random s = (([], some no_randomness), s)
generate_password c j a (some raw) random s =
    let password = spell raw in
    let (e, s') = set_password_text c j a random s password in
    (elim e [ none ↦ (password, none) | some why ↦ ([], some why) ], s')

-- `strings.Cut` at a byte.
unfoldable pub cut : ℕ → Bytes → Option (Bytes × Bytes)
cut sep [] = none
cut sep (b ∷ s) =
    let rest = cut sep s in
    if b == sep then some ([], s) else elim rest [ none ↦ none | some (l, r) ↦ some (b ∷ l, r) ]

-- A missing secret is drawn and saved; a failing save fails the call and keeps the new secret.
unfoldable pub draw_secret : Crypto → Json → Files → Option Bytes → Store → Bool × Store
unfolding save
draw_secret c j a none s = (false, s)
draw_secret c j a (some random) s =
    let (e, s') =
      save j a
        (record s { contents = record s.contents { session_secret = c.raw_std_encode random } }) in
    (elim e [ none ↦ true | some why ↦ false ], s')

unfoldable pub session_secret : Crypto → Json → Files → Option Bytes → Store → Option Bytes × Store
unfolding draw_secret
session_secret c j a random s =
    let (fine, s') =
      if bytes_eq s.contents.session_secret [] then draw_secret c j a random s else (true, s) in
    (if fine then c.raw_std_decode s'.contents.session_secret else none, s')

unfoldable pub sign : Crypto → Bytes → Bytes → Bytes
sign c secret payload =
    c.raw_url_encode payload ++ (b'.' ∷ c.raw_url_encode (c.hmac secret payload))

-- The payload that `newSession` marshals.
abbrev pub payload_at : Crypto → ℕ → ℕ → Bytes → SessionPayload
payload_at c epoch now nonce = record {
  epoch = epoch;
  exp = unix (now + session_ttl);
  nonce = c.raw_std_encode nonce;
}

unfoldable pub sign_payload : Crypto → Bytes → SessionPayload → Option Bytes
unfolding sign
sign_payload c secret p = elim (c.marshal_payload p) [
  | none ↦ none
  | some payload ↦ some (sign c secret payload)
]

-- `newSession`, for the random bytes of a secret and of the nonce.
unfoldable pub new_session :
    Crypto → Json → Files → Option Bytes → Option Bytes → Store → ℕ → Option Bytes × Store
unfolding session_secret sign_payload
new_session c j a random nonce s now =
    let (secret, s') = session_secret c j a random s in
    (
      elim secret [
        | none ↦ none
        | some key ↦ elim nonce [
          | none ↦ none
          | some n ↦ sign_payload c key (payload_at c s'.contents.session_epoch now n)
        ]
      ],
      s',
    )

unfoldable pub accepts_payload : ℕ → ℕ → Option SessionPayload → Bool
accepts_payload epoch now none = false
accepts_payload epoch now (some p) = (p.epoch == epoch) && ltb (unix now) p.exp

unfoldable pub check_signed : Crypto → Bytes → ℕ → ℕ → Option Bytes → Option Bytes → Bool
unfolding accepts_payload
check_signed c secret epoch now (some payload) (some sig) =
    bytes_eq sig (c.hmac secret payload) && accepts_payload epoch now (c.unmarshal_payload payload)
check_signed c secret epoch now none sig = false
check_signed c secret epoch now (some payload) none = false

unfoldable pub check_session : Crypto → Option Bytes → ℕ → ℕ → Option (Bytes × Bytes) → Bool
unfolding check_signed
check_session c none epoch now parts = false
check_session c (some secret) epoch now none = false
check_session c (some secret) epoch now (some (payload, sig)) =
    check_signed c secret epoch now (c.raw_url_decode payload) (c.raw_url_decode sig)

-- `validSession`: the answer, and the store, which may draw a secret.
unfoldable pub valid_session :
    Crypto → Json → Files → Option Bytes → Store → Bytes → ℕ → Bool × Store
unfolding session_secret check_session cut
valid_session c j a random s value now =
    let (secret, s') = session_secret c j a random s in
    (check_session c secret s'.contents.session_epoch now (cut b'.' value), s')
