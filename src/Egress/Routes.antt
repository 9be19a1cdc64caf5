-- ===== src/Egress/Routes.antt =====
-- internal/devin/egress.go: the pool of routes. An `*Egress` is its address, with its label; a nil
-- pool or route is `none`. `net/url` is the parameter `parse_url`; a transport has no state here.
use devin2proxy.Prelude.{
  ℕ, suc, ◌+◌, ◌*◌, Bool, false, ◌&&◌, ◌||◌, not, Option, none, some, List, [], ◌∷◌, ◌++◌, ◌⊎◌, inl,
  inr, ltb, leb, ◌==◌, if◌then◌else◌, length, get_elem?, get_or, Bytes, bytes_eq, codes, has_prefix,
  trim_space, atoi,
}
use devin2proxy.Errors.{GoError}
use devin2proxy.Rotate
use devin2proxy.Rotate.{RotationCursor}
use devin2proxy.Egress.Specs.{strip_egress_credentials}

pub record Egress : Type 0 where
  pub address : ℕ
  pub label : Bytes

-- What the code reads of a `url.URL`.
pub record Url : Type 0 where
  pub scheme : Bytes
  pub host : Bytes
  pub port : Bytes

pub data SpecError : Type 0 where
  unparsed unsupported_scheme no_host no_port bad_port : Bytes → SpecError

pub data Built : Type 0 where
  built : Egress → Built
  refused : SpecError → Built

pub record EgressPool : Type 0 where
  pub list : List Egress
  pub specs : List Bytes
  pub rot : RotationCursor
  pub last : Option ℕ

-- Nanoseconds.
abbrev pub cool_egress : ℕ
cool_egress = 5 * 60 * 1000000000

abbrev pub is_scheme : Bytes → Bool
is_scheme s =
    bytes_eq s (codes "socks5")
    || bytes_eq s (codes "socks5h")
    || bytes_eq s (codes "http")
    || bytes_eq s (codes "https")

unfoldable pub is_port : Bytes → Bool
unfolding atoi
is_port port = elim (atoi port) [
  | none ↦ false
  | some (below_zero, n) ↦ not below_zero && leb 1 n && leb n 65535
]

-- `newEgress` at a fresh address. An error names the masked spec.
unfoldable pub check_url : ℕ → Bytes → Url → Built
unfolding is_port
check_url address shown u =
    if not (is_scheme u.scheme)
    then refused (unsupported_scheme shown)
    else if bytes_eq u.host []
    then refused (no_host shown)
    else if bytes_eq u.port []
    then refused (no_port shown)
    else if not (is_port u.port)
    then refused (bad_port shown)
    else built (record { address = address; label = u.scheme ++ (codes "://" ++ u.host) })

unfoldable pub new_egress : (Bytes → Option Url) → ℕ → Bytes → Built
unfolding check_url strip_egress_credentials
new_egress parse_url address spec =
    if bytes_eq spec (codes "direct") || bytes_eq spec (codes "direct://")
    then built (record { address = address; label = codes "direct" })
    else elim (parse_url spec) [
      | none ↦ refused (unparsed (strip_egress_credentials spec))
      | some u ↦ check_url address (strip_egress_credentials spec) u
    ]

pub data NewPool : Type 0 where
  -- `nil` for a list without routes
  made : Option EgressPool → NewPool
  failed : SpecError → NewPool

unfoldable pub add_route : EgressPool → Egress → Bytes → EgressPool
unfolding strip_egress_credentials
add_route p e spec = record p {
  list = p.list ++ (e ∷ []);
  specs = p.specs ++ (strip_egress_credentials spec ∷ []);
}

abbrev pub is_skipped : Bytes → Bool
is_skipped spec = bytes_eq spec [] || has_prefix spec (codes "#")

-- The loop of `NewEgressPool`; `address` is where the next route goes.
unfoldable pub collect_routes :
    (Bytes → Option Url) → ℕ → EgressPool → List Bytes → SpecError ⊎ EgressPool
unfolding new_egress add_route
collect_routes parse_url address p [] = inr p
collect_routes parse_url address p (raw ∷ specs) =
    let spec = trim_space raw in
    let skip = collect_routes parse_url address p specs in
    if is_skipped spec then skip else elim (new_egress parse_url address spec) [
      | refused e ↦ inl e
      | built e ↦ collect_routes parse_url (suc address) (add_route p e spec) specs
    ]

abbrev pub no_routes : EgressPool
no_routes = record { list = []; specs = []; rot = record { next = 0; cooling = [] }; last = none }

unfoldable pub finish_pool : EgressPool → Option EgressPool
unfolding Rotate.new_rotation_cursor
finish_pool p =
    if length p.list == 0
    then none
    else some (record p { rot = Rotate.new_rotation_cursor (length p.list) })

unfoldable pub new_egress_pool : (Bytes → Option Url) → List Bytes → NewPool
unfolding collect_routes finish_pool
new_egress_pool parse_url specs = elim (collect_routes parse_url 0 no_routes specs) [
  | inl e ↦ failed e
  | inr p ↦ made (finish_pool p)
]

unfoldable pub len : Option EgressPool → ℕ
len none = 0
len (some p) = length p.list

unfoldable pub available : Option EgressPool → ℕ → ℕ
available none now = 0
available (some p) now = Rotate.available_locked p.rot now

unfoldable pub route_of_pick : EgressPool → Option ℕ × RotationCursor → Option Egress × EgressPool
route_of_pick p (none, rot) = (none, record p { rot = rot; last = none })
route_of_pick p (some idx, rot) = (get_elem? p.list idx, record p { rot = rot; last = some idx })

unfoldable pub next_route : EgressPool → ℕ → Option Egress × EgressPool
unfolding route_of_pick
next_route p now = if length p.list == 0 then (none, p) else route_of_pick p (Rotate.pick p.rot now)

-- `Next`
unfoldable pub next : Option EgressPool → ℕ → Option Egress × Option EgressPool
unfolding next_route
next none now = (none, none)
next (some p) now = let (e, p') = next_route p now in (e, some p')

-- The index of a route, by its address.
unfoldable pub index_of : List Egress → Egress → Option ℕ
index_of [] e = none
index_of (candidate ∷ list) e =
    let rest = index_of list e in
    if candidate.address == e.address
    then some 0
    else elim rest [ none ↦ none | some i ↦ some (suc i) ]

unfoldable pub is_broken : GoError → Bool
is_broken err = elim err.egress [ none ↦ false | some e ↦ e.broken ]

unfoldable pub cool_route : EgressPool → Egress → ℕ → EgressPool
unfolding index_of
cool_route p e now = elim (index_of p.list e) [
  | none ↦ p
  | some idx ↦ record p { rot = (Rotate.cool_off p.rot idx now (now + cool_egress)).1 }
]

-- `Report`; a nil error is `none`.
unfoldable pub report : Option EgressPool → Option Egress → Option GoError → ℕ → Option EgressPool
unfolding is_broken cool_route
report none e err now = none
report (some p) none err now = some p
report (some p) (some e) none now = some p
report (some p) (some e) (some err) now =
    if is_broken err then some (cool_route p e now) else some p

pub record RouteState : Type 0 where
  pub index : ℕ
  pub label : Bytes
  pub spec : Bytes
  pub is_available : Bool
  pub cooling_until : Option ℕ
  pub last_served : Bool
  pub direct : Bool

abbrev pub is_last : Option ℕ → ℕ → Bool
is_last none i = false
is_last (some last) i = i == last

-- One entry of a listing, for slot `i`.
unfoldable pub route_state : EgressPool → ℕ → ℕ → Egress → RouteState
route_state p now i e =
    let cools = ltb i (length p.rot.cooling) && ltb now (get_or p.rot.cooling i 0) in
    record {
      index = i;
      label = e.label;
      spec = get_or p.specs i [];
      is_available = not cools;
      cooling_until = if cools then some (get_or p.rot.cooling i 0) else none;
      last_served = is_last p.last i;
      direct = bytes_eq e.label (codes "direct");
    }

unfoldable pub states_from : EgressPool → ℕ → ℕ → List Egress → List RouteState
unfolding route_state
states_from p now i [] = []
states_from p now i (e ∷ list) = route_state p now i e ∷ states_from p now (i + 1) list

-- `States`
unfoldable pub states : Option EgressPool → ℕ → List RouteState
unfolding states_from
states none now = []
states (some p) now = states_from p now 0 p.list

unfoldable pub with_route : GoError → GoError
with_route err = elim err.egress [
  | some e ↦ err
  | none ↦ record err { egress = some (record { broken = false }) }
]
