-- ===== src/Server/Refusals.antt =====
-- internal/server/server.go: which failures are an account's, what status a client sees, and the
-- access to the API.
use devin2proxy.Prelude.{
  ℕ, Bool, true, false, ◌&&◌, ◌||◌, not, Option, none, some, List, [], ◌∷◌, ◌++◌, ltb, ◌==◌,
  if◌then◌else◌, length, take, drop, Bytes, bytes_eq, contains_bytes, codes, trim_space,
}
use devin2proxy.Errors.{GoError, HttpError, ConnectError}
use devin2proxy.Pool.Accounts.{Pool}
use devin2proxy.Pool.Cooldowns

abbrev pub is_refused_code : Bytes → Bool
is_refused_code code =
    bytes_eq code (codes "unauthenticated")
    || bytes_eq code (codes "permission_denied")
    || bytes_eq code (codes "resource_exhausted")

-- The tests of `isAccountRefusal`, the HTTP error first.
unfoldable pub refused_by : Option HttpError → Option ConnectError → Bool
refused_by (some h) c = h.status == 401 || h.status == 403 || h.status == 429
refused_by none (some c) = is_refused_code c.code
refused_by none none = false

unfoldable pub is_account_refusal : GoError → Bool
unfolding refused_by
is_account_refusal err = refused_by err.http err.connect

unfoldable pub is_quota_refusal : Option HttpError → Option ConnectError → Bool
is_quota_refusal (some h) c = h.status == 429
is_quota_refusal none (some c) = bytes_eq c.code (codes "resource_exhausted")
is_quota_refusal none none = false

-- `reportQuotaRefusal`; a nil credential or error is `none`.
unfoldable pub report_quota_refusal : Pool → Option ℕ → Option GoError → ℕ → ℕ → Bool × Pool
unfolding is_quota_refusal
report_quota_refusal p none err now later = (false, p)
report_quota_refusal p (some c) none now later = (false, p)
report_quota_refusal p (some c) (some err) now later =
    if is_quota_refusal err.http err.connect
    then Cooldowns.report p (some c) 0 (some err) now later
    else (false, p)

-- The status that `writeUpstreamError` answers with.
unfoldable pub upstream_status : Option HttpError → Option ConnectError → ℕ
upstream_status (some h) c = if h.status == 429 then 429 else 502
upstream_status none (some c) =
    if bytes_eq c.code (codes "invalid_argument")
    then 400
    else if bytes_eq c.code (codes "resource_exhausted")
    then 429
    else 502
upstream_status none none = 502

-- The failures of `getChatMessage`.
pub data Failure : Type 0 where
  -- `clientError` and `errNoCredential`
  bad_request no_credential : Failure
  upstream : GoError → Failure

unfoldable pub failure_status : Failure → ℕ
unfolding upstream_status
failure_status bad_request = 400
failure_status no_credential = 502
failure_status (upstream err) = elim err.egress [
  | some e ↦ 502
  | none ↦ upstream_status err.http err.connect
]

-- What `auth` answers: 204, 503, 401, or the handler.
pub data Admission : Type 0 where
  preflight unconfigured wrong_key admitted : Admission

pub record Headers : Type 0 where
  pub method : Bytes
  pub authorization : Bytes
  pub x_api_key : Bytes

unfoldable pub bearer_token : (Bytes → Bytes → Bool) → Headers → Bytes
bearer_token equal_fold h =
    if ltb 7 (length h.authorization) && equal_fold (take 7 h.authorization) (codes "Bearer ")
    then trim_space (drop 7 h.authorization)
    else trim_space h.x_api_key

unfoldable pub auth : (Bytes → Bytes → Bool) → Bytes → Headers → Admission
unfolding bearer_token
auth equal_fold api_key h =
    if bytes_eq h.method (codes "OPTIONS")
    then preflight
    else if bytes_eq api_key []
    then unconfigured
    else if not (bytes_eq (bearer_token equal_fold h) api_key)
    then wrong_key
    else admitted

abbrev pub is_backend_model_uid : Bytes → Bool
is_backend_model_uid name =
    bytes_eq name (codes "swe-1-6-slow") || bytes_eq name (codes "swe-1-6-fast")

-- The loop over the advertised models.
unfoldable pub is_advertised : (Bytes → Bytes → Bool) → List Bytes → Bytes → Bool
is_advertised equal_fold [] name = false
is_advertised equal_fold (m ∷ models) name =
    equal_fold m name || is_advertised equal_fold models name

unfoldable pub resolve_model : (Bytes → Bytes → Bool) → Bytes → List Bytes → Bytes → Bytes × Bool
unfolding is_advertised
resolve_model equal_fold default_model models requested =
    let name = trim_space requested in
    if bytes_eq name []
    then (default_model, true)
    else if is_backend_model_uid name
    then (name, true)
    else (default_model, is_advertised equal_fold models name)

abbrev pub max_model_fallback_notes : ℕ
max_model_fallback_notes = 512

abbrev pub max_model_fallback_key_bytes : ℕ
max_model_fallback_key_bytes = 128

-- The ellipsis is three bytes.
abbrev pub ellipsis : Bytes
ellipsis = 226 ∷ 128 ∷ 166 ∷ []

unfoldable pub fallback_key : Bytes → Bytes
fallback_key requested =
    let name = trim_space requested in
    if ltb max_model_fallback_key_bytes (length name)
    then take max_model_fallback_key_bytes name ++ ellipsis
    else name

-- `noteModelFallback` on the names that were seen: whether it logs, and the names after it.
unfoldable pub note_model_fallback : List Bytes → Bytes → Bool × List Bytes
unfolding fallback_key contains_bytes
note_model_fallback seen requested =
    let name = fallback_key requested in
    if contains_bytes seen name
    then (false, seen)
    else (true, if ltb (length seen) max_model_fallback_notes then name ∷ seen else seen)
