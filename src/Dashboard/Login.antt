-- ===== src/Dashboard/Login.antt =====
-- internal/dashboard/auth.go and dashboard.go: who may call the panel, and the login and logout
-- handlers. `net` and `strings.EqualFold` are `Net`. A reply is its status; the texts are left out.
use devin2proxy.Prelude.{
  ℕ, Bool, true, false, ◌&&◌, not, Option, none, some, [], if◌then◌else◌, Bytes, bytes_eq, codes,
  trim_space, trim_prefix, trim_suffix, cut_prefix,
}
use devin2proxy.Dashboard.Store.{Store, Json, Files, bump_session_epoch}
use devin2proxy.Dashboard.Bans.{login_state_for, record_login_failure, record_login_success}
use devin2proxy.Dashboard.Session.{Crypto, verify_password, new_session, valid_session}

pub record Net : Type 0 where
  -- the host of `net.SplitHostPort`, `none` for its error
  pub split_host_port : Bytes → Option Bytes
  -- `net.ParseIP` gives an address, and it is a loopback one
  pub is_loopback_ip : Bytes → Bool
  pub equal_fold : Bytes → Bytes → Bool

-- The panel's configuration and the libraries it calls.
pub record Panel : Type 0 where
  pub allow_remote : Bool
  pub crypto : Crypto
  pub json : Json
  pub net : Net

-- What the file system and the random source answer during one call.
pub record Chance : Type 0 where
  pub files : Files
  pub later_files : Files
  pub secret : Option Bytes
  pub later_secret : Option Bytes
  pub nonce : Option Bytes

-- What the panel reads of a request; `password` is the decoded body, `none` for a bad one.
pub record Request : Type 0 where
  pub origin : Bytes
  pub host : Bytes
  pub remote_addr : Bytes
  pub cookie : Option Bytes
  pub authorization : Bytes
  pub password : Option Bytes

pub data Reply : Type 0 where
  -- `deny`, with its status
  denied : ℕ → Reply
  -- 200 with the value of the new session
  signed_in : Bytes → Reply
  -- 200, and whether the change was saved
  signed_out : Bool → Reply
  -- the guarded handler runs
  passed_on : Reply

abbrev pub host_of : Net → Bytes → Bytes
host_of net addr = elim (net.split_host_port addr) [ none ↦ addr | some host ↦ host ]

unfoldable pub client_addr : Net → Request → Bytes
client_addr net r =
    let host = host_of net r.remote_addr in if bytes_eq host [] then codes "unknown" else host

unfoldable pub is_loopback_addr : Net → Bytes → Bool
is_loopback_addr net addr =
    let host = host_of net addr in
    if bytes_eq host []
    then false
    else if net.equal_fold host (codes "localhost")
    then true
    else net.is_loopback_ip host

unfoldable pub same_origin : Net → Bytes → Bytes → Bool
unfolding trim_prefix trim_suffix
same_origin net origin host =
    let named = trim_prefix (trim_prefix origin (codes "http://")) (codes "https://") in
    net.equal_fold (trim_suffix named (codes "/")) host

unfoldable pub is_cross_origin : Net → Request → Bool
unfolding same_origin
is_cross_origin net r = not (bytes_eq r.origin []) && not (same_origin net r.origin r.host)

unfoldable pub is_too_far : Panel → Request → Bool
unfolding is_loopback_addr
is_too_far d r = not d.allow_remote && not (is_loopback_addr d.net r.remote_addr)

-- The cookie of `authenticated`.
unfoldable pub has_cookie : Panel → Chance → Store → Request → ℕ → Bool × Store
unfolding valid_session
has_cookie d ch s r now = elim r.cookie [
  | none ↦ (false, s)
  | some value ↦ valid_session d.crypto d.json ch.files ch.secret s value now
]

-- Its bearer header.
unfoldable pub has_bearer : Panel → Chance → Store → Request → ℕ → Bool × Store
unfolding valid_session cut_prefix
has_bearer d ch s r now = elim (cut_prefix r.authorization (codes "Bearer ")) [
  | none ↦ (false, s)
  | some token ↦
      valid_session d.crypto d.json ch.later_files ch.later_secret s (trim_space token) now
]

unfoldable pub authenticated : Panel → Chance → Store → Request → ℕ → Bool × Store
unfolding has_cookie has_bearer
authenticated d ch s r now =
    let (known, s') = has_cookie d ch s r now in
    if known then (true, s') else has_bearer d ch s' r now

unfoldable pub guard : Panel → Chance → Store → Request → ℕ → Reply × Store
unfolding is_cross_origin is_too_far authenticated
guard d ch s r now =
    if is_cross_origin d.net r
    then (denied 403, s)
    else if is_too_far d r
    then (denied 403, s)
    else elim s.contents.password [
      | none ↦ (denied 503, s)
      | some rec ↦
          let (known, s') = authenticated d ch s r now in
          ((if known then passed_on else denied 401), s')
    ]

-- The refusals of `handleLogin` that come before the body is read.
unfoldable pub refuse_login : Panel → Store → Request → ℕ → Option ℕ
unfolding is_cross_origin is_too_far client_addr login_state_for
refuse_login d s r now =
    if is_cross_origin d.net r
    then some 403
    else if is_too_far d r
    then some 403
    else elim s.contents.password [
      | none ↦ some 503
      | some rec ↦ if (login_state_for s (client_addr d.net r) now).banned then some 429 else none
    ]

unfoldable pub fail_login : Panel → Chance → Store → Request → ℕ → Reply × Store
unfolding client_addr record_login_failure
fail_login d ch s r now =
    let (state, s') = record_login_failure d.json ch.files s (client_addr d.net r) now in
    ((if state.banned then denied 429 else denied 401), s')

unfoldable pub sign_in : Panel → Chance → Store → Request → ℕ → Reply × Store
unfolding client_addr record_login_success new_session
sign_in d ch s r now =
    let (value, s') =
      new_session d.crypto d.json ch.later_files ch.secret ch.nonce
        (record_login_success d.json ch.files s (client_addr d.net r)) now in
    (elim value [ none ↦ denied 500 | some token ↦ signed_in token ], s')

-- What `handleLogin` has found before it changes anything: an answer, or whether the password is
-- right.
pub data Verdict : Type 0 where
  turned_away : ℕ → Verdict
  wrong right : Verdict

-- The part that only reads the store, up to the judgement of the password; the clock reads `now`.
unfoldable pub judge_login : Panel → Store → Request → ℕ → Verdict
unfolding refuse_login verify_password
judge_login d s r now = elim (refuse_login d s r now) [
  | some status ↦ turned_away status
  | none ↦ elim r.password [
    | none ↦ turned_away 400
    | some password ↦ if verify_password d.crypto s.contents.password password then right else wrong
  ]
]

-- The part that writes, on the store as other requests have left it by then; the clock reads `later`.
unfoldable pub finish_login : Panel → Chance → Store → Request → Verdict → ℕ → Reply × Store
unfolding fail_login sign_in
finish_login d ch s r (turned_away status) later = (denied status, s)
finish_login d ch s r wrong later = fail_login d ch s r later
finish_login d ch s r right later = sign_in d ch s r later

-- `handleLogin` where no other request comes between its two parts.
unfoldable pub handle_login : Panel → Chance → Store → Request → ℕ → ℕ → Reply × Store
unfolding judge_login finish_login
handle_login d ch s r now later = finish_login d ch s r (judge_login d s r now) later

-- `handleLogout`, behind the guard.
unfoldable pub handle_logout : Panel → Chance → Store → Reply × Store
unfolding bump_session_epoch
handle_logout d ch s =
    let ((epoch, e), s') = bump_session_epoch d.json ch.files s in
    (elim e [ none ↦ signed_out true | some why ↦ signed_out false ], s')
