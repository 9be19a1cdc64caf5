-- ===== src/Pool/Accounts.antt =====
-- internal/devin/pool.go: the list of accounts, who is next, and adding and removing accounts.
use devin2proxy.Prelude.{
  ℕ, suc, ◌+◌, ◌-◌, Bool, true, false, ◌||◌, Option, none, some, List, [], ◌∷◌, ◌++◌, ltb, leb,
  ◌==◌, if◌then◌else◌, length, get_elem?, remove_at, replicate, Bytes, bytes_eq, codes, trim,
  trim_space, trim_right, before_byte, ◌*◌,
}
use devin2proxy.Status.{AccountStatus}
use devin2proxy.Rotate
use devin2proxy.Rotate.{RotationCursor, available_locked}

-- What `Sprintf` renders for the log.
pub data Source : Type 0 where
  pool_source dashboard_source : ℕ → Source

pub record Credentials : Type 0 where
  pub api_key : Bytes
  pub api_server_url : Bytes
  pub source : Source
  pub pool_index : Option ℕ

-- `heap` holds the credentials ever made, at the addresses below `fresh`; `status` says whether a
-- status source is set.
pub record Pool : Type 0 where
  pub entries : List ℕ
  pub api_server_url : Bytes
  pub rot : RotationCursor
  pub status : Bool
  pub busy : List Bool
  pub quota_cool_until : List ℕ
  pub identities : ℕ → Option AccountStatus
  pub last_rotation : Option ℕ
  pub heap : ℕ → Credentials
  pub fresh : ℕ

-- Durations in nanoseconds.
abbrev pub second : ℕ
second = 1000000000

abbrev pub cool_rejected : ℕ
cool_rejected = 5 * 60 * second

abbrev pub cool_rate_limited : ℕ
cool_rate_limited = 30 * second

abbrev pub max_quota_cool : ℕ
max_quota_cool = 12 * 60 * 60 * second

abbrev pub default_api_server_url : Bytes
default_api_server_url = codes "https://server.codeium.com"

unfoldable pub clean_token : Bytes → Bytes
unfolding trim before_byte
clean_token raw =
    trim (λ b. b == b'"' || b == b'\'') (trim_space (before_byte b'#' (trim_space raw)))

-- A write through a pointer.
abbrev pub store : (ℕ → Credentials) → ℕ → Credentials → ℕ → Credentials
store heap p c q = if q == p then c else heap q

-- Whether some entry holds this key.
unfoldable pub holds_key : (ℕ → Credentials) → List ℕ → Bytes → Bool
holds_key heap [] tok = false
holds_key heap (e ∷ es) tok = bytes_eq (heap e).api_key tok || holds_key heap es tok

abbrev pub new_credentials : Pool → Bytes → Source → Credentials
new_credentials p tok source = record {
  api_key = tok;
  api_server_url = p.api_server_url;
  source = source;
  pool_index = some (length p.entries);
}

-- `append` to `entries` of a new credential.
unfoldable pub append_entry : Pool → Bytes → Source → Pool
append_entry p tok source = record p {
  entries = p.entries ++ (p.fresh ∷ []);
  heap = store p.heap p.fresh (new_credentials p tok source);
  fresh = suc p.fresh;
}

-- The loop of `NewPool`; its set `seen` holds the keys of the entries.
unfoldable pub collect_tokens : Pool → List Bytes → Pool
unfolding append_entry holds_key
collect_tokens p [] = p
collect_tokens p (raw ∷ tokens) =
    let tok = clean_token raw in
    collect_tokens
      (if bytes_eq tok [] || holds_key p.heap p.entries tok
        then p
        else append_entry p tok (pool_source (length p.entries)))
      tokens

-- What `heap` holds where nothing was stored is never read.
unfoldable pub empty_pool : Bytes → Pool
empty_pool url = record {
  entries = [];
  api_server_url = url;
  rot = Rotate.new_rotation_cursor 0;
  status = false;
  busy = [];
  quota_cool_until = [];
  identities = λ i. none;
  last_rotation = none;
  heap =
      λ i. record { api_key = []; api_server_url = []; source = pool_source 0; pool_index = none };
  fresh = 0;
}

unfoldable pub server_url : Bytes → Bytes
unfolding trim_right
server_url url =
    let trimmed = trim_right (λ b. b == b'/') url in
    if bytes_eq trimmed [] then default_api_server_url else trimmed

unfoldable pub new_pool : List Bytes → Bytes → Pool
unfolding collect_tokens server_url empty_pool Rotate.new_rotation_cursor
new_pool tokens url =
    let p = collect_tokens (empty_pool (server_url url)) tokens in
    record p {
      rot = Rotate.new_rotation_cursor (length p.entries);
      busy = replicate (length p.entries) false;
      quota_cool_until = replicate (length p.entries) 0;
    }

unfoldable pub len : Pool → ℕ
len p = length p.entries

unfoldable pub available : Pool → ℕ → ℕ
available p now = available_locked p.rot now

-- `Next`: the address of the credential, `none` only for the empty pool.
unfoldable pub next_of_pick : Pool → Option ℕ × RotationCursor → Option ℕ × Pool
next_of_pick p (none, rot) = (none, record p { rot = rot; last_rotation = none })
next_of_pick p (some idx, rot) =
    (get_elem? p.entries idx, record p { rot = rot; last_rotation = some idx })

unfoldable pub next : Pool → ℕ → Option ℕ × Pool
unfolding next_of_pick
next p now = if length p.entries == 0 then (none, p) else next_of_pick p (Rotate.pick p.rot now)

-- The critical section of `Add`, once the key is known to be new.
unfoldable pub add_account : Pool → Bytes → Pool
unfolding append_entry
add_account p tok = record (append_entry p tok (dashboard_source (length p.entries))) {
  rot = Rotate.append_slot p.rot;
  busy = p.busy ++ (false ∷ []);
  quota_cool_until = p.quota_cool_until ++ (0 ∷ []);
}

-- `Add`: the new index, or `none` for -1.
unfoldable pub add : Pool → Bytes → Option ℕ × Pool
unfolding holds_key
add p raw =
    let tok = clean_token raw in
    if bytes_eq tok [] || holds_key p.heap p.entries tok
    then (none, p)
    else (some (length p.entries), add_account p tok)

abbrev pub set_index : (ℕ → Credentials) → ℕ → ℕ → ℕ → Credentials
set_index heap e i = store heap e (record (heap e) { pool_index = some i })

-- `for i, e := range p.entries { e.poolIndex = i }`
unfoldable pub renumber : (ℕ → Credentials) → ℕ → List ℕ → ℕ → Credentials
renumber heap i [] = heap
renumber heap i (e ∷ es) = renumber (set_index heap e i) (i + 1) es

unfoldable pub shift_rotation : ℕ → Option ℕ → Option ℕ
shift_rotation idx none = none
shift_rotation idx (some last) =
    if last == idx then none else if ltb idx last then some (last - 1) else some last

-- The loop that fills `moved`.
abbrev pub shift_identities : ℕ → (ℕ → Option AccountStatus) → ℕ → Option AccountStatus
shift_identities idx identities i = if ltb i idx then identities i else identities (suc i)

unfoldable pub splice : Pool → ℕ → Pool
unfolding renumber shift_rotation
splice p idx =
    let entries = remove_at p.entries idx in
    record p {
      entries = entries;
      heap = renumber p.heap 0 entries;
      rot = Rotate.remove_slot p.rot idx;
      last_rotation = shift_rotation idx p.last_rotation;
      busy = remove_at p.busy idx;
      quota_cool_until = remove_at p.quota_cool_until idx;
      identities = shift_identities idx p.identities;
    }

-- `Remove` and `removeLocked`.
unfoldable pub remove : Pool → ℕ → Bool × Pool
unfolding splice
remove p idx = if leb (length p.entries) idx then (false, p) else (true, splice p idx)

abbrev pub same_entry : Option ℕ → ℕ → Bool
same_entry none c = false
same_entry (some e) c = e == c

-- `indexLocked`
unfoldable pub index_at : Pool → ℕ → Option ℕ → Option ℕ
index_at p c none = none
index_at p c (some i) = if same_entry (get_elem? p.entries i) c then some i else none

unfoldable pub index_locked : Pool → Option ℕ → Option ℕ
unfolding index_at
index_locked p none = none
index_locked p (some c) = index_at p c (p.heap c).pool_index

unfoldable pub remove_credential : Pool → Option ℕ → Bool × Pool
unfolding remove index_locked
remove_credential p creds = elim (index_locked p creds) [
  | none ↦ (false, p)
  | some idx ↦ remove p idx
]

unfoldable pub keys : (ℕ → Credentials) → List ℕ → List Bytes
keys heap [] = []
keys heap (e ∷ es) = (heap e).api_key ∷ keys heap es

unfoldable pub tokens : Pool → List Bytes
unfolding keys
tokens p = keys p.heap p.entries

unfoldable pub credential_at : Pool → ℕ → Option ℕ
credential_at p idx = get_elem? p.entries idx

abbrev pub put_identity : ℕ → AccountStatus → (ℕ → Option AccountStatus) → ℕ → Option AccountStatus
put_identity idx st identities i = if i == idx then some st else identities i

unfoldable pub remember : Pool → Option ℕ → AccountStatus → Pool
unfolding index_locked
remember p creds st = elim (index_locked p creds) [
  | none ↦ p
  | some idx ↦ record p { identities = put_identity idx st p.identities }
]
