-- ===== src/Egress/Socks.antt =====
-- internal/devin/egress.go: `socks5Handshake`, over the bytes that the proxy sends. A connection is
-- what is still to be read, what was written, and how many writes will succeed; `net` is `Resolver`,
-- and `gave_up` says whether the caller's context has ended.
use devin2proxy.Prelude.{
  ℕ, zero, suc, ◌+◌, ◌-◌, ◌/◌, ◌%◌, ◌^◌, Bool, true, false, not, ◌||◌, Option, none, some, [], ◌∷◌,
  ◌++◌, ltb, ◌==◌, if◌then◌else◌, length, take, drop, Bytes, bytes_eq, atoi, get_or,
}
use devin2proxy.Errors.{EgressError}

pub record Conn : Type 0 where
  pub input : Bytes
  pub output : Bytes
  pub writes : ℕ

pub data Ip : Type 0 where
  v4 v6 : Bytes → Ip

pub record Resolver : Type 0 where
  pub split_host_port : Bytes → Option (Bytes × Bytes)
  pub parse_ip : Bytes → Option Ip

pub data Result {ℓ} (A : Type ℓ) : Type ℓ where
  ok : A → Conn → Result A
  failed : EgressError → Conn → Result A

abbrev pub M {ℓ} : Type ℓ → Type ℓ
M A = Conn → Result A

infixl 5 ◌>>=◌ ◌>>◌
abbrev pub ◌>>=◌ : {A B : Type 0} → M A → (A → M B) → M B
◌>>=◌ m f c = elim (m c) [ ok a c' ↦ f a c' | failed e c' ↦ failed e c' ]

abbrev pub ◌>>◌ : {A B : Type 0} → M A → M B → M B
m >> k = m >>= λ _. k

abbrev pub pure : {A : Type 0} → A → M A
pure a c = ok a c

abbrev pub fail : {A : Type 0} → EgressError → M A
fail e c = failed e c

-- `brokenCtx`
abbrev pub broken_ctx : Bool → EgressError
broken_ctx gave_up = record { broken = not gave_up }

-- An `EgressError` that does not count against the route.
abbrev pub unbroken : EgressError
unbroken = record { broken = false }

abbrev pub write_to : Conn → ℕ → Bytes → Conn
write_to c left b = record c { output = c.output ++ b; writes = left }

-- `conn.Write`
unfoldable pub write : Bool → Bytes → M (Unit {0})
write gave_up b c = elim c.writes [
  | zero ↦ failed (broken_ctx gave_up) c
  | suc left ↦ ok tt (write_to c left b)
]

-- `io.ReadFull` of `n` bytes.
unfoldable pub read_full : Bool → ℕ → M Bytes
read_full gave_up n c =
    if ltb (length c.input) n
    then failed (broken_ctx gave_up) (record c { input = [] })
    else ok (take n c.input) (record c { input = drop n c.input })

-- `append([]byte{0x05, byte(len(methods))}, methods...)`
abbrev pub greeting : Bytes → Bytes
greeting [] = 5 ∷ 1 ∷ 0 ∷ []
greeting (u ∷ user) = 5 ∷ 2 ∷ 0 ∷ 2 ∷ []

-- The message of RFC 1929; a length is one byte.
abbrev pub auth_message : Bytes → Bytes → Bytes
auth_message user pass = 1 ∷ (length user % 256) ∷ (user ++ ((length pass % 256) ∷ pass))

unfoldable pub authenticate : Bool → Bytes → Bytes → M (Unit {0})
authenticate gave_up user pass = if bytes_eq user [] then fail (broken_ctx gave_up) else do
  write gave_up (auth_message user pass)
  reply ← read_full gave_up 2
  if get_or reply 1 0 == 0 then pure tt else fail (broken_ctx gave_up)

-- What the proxy's choice of a method leads to.
unfoldable pub choose : Bool → Bytes → Bytes → Bytes → M (Unit {0})
unfolding authenticate
choose gave_up user pass choice =
    if not (get_or choice 0 0 == 5)
    then fail (broken_ctx gave_up)
    else if get_or choice 1 0 == 0
    then pure tt
    else if get_or choice 1 0 == 2
    then authenticate gave_up user pass
    else fail (broken_ctx gave_up)

-- The port as the bits of an `int`.
abbrev pub port_bits : Bool × ℕ → ℕ
port_bits (false, n) = n
port_bits (true, n) = 2 ^ 64 - n

abbrev pub port_bytes : ℕ → Bytes
port_bytes port = (port / 256 % 256) ∷ (port % 256) ∷ []

abbrev pub address_bytes : Bytes → Option Ip → Bytes
address_bytes host none = 3 ∷ (length host % 256) ∷ host
address_bytes host (some (v4 b)) = 1 ∷ b
address_bytes host (some (v6 b)) = 4 ∷ b

-- The request for a host and the bits of a port; `none` for a name that is too long.
unfoldable pub connect_request : Resolver → Bytes → ℕ → Option Bytes
connect_request net host port =
    let request = some (5 ∷ 1 ∷ 0 ∷ (address_bytes host (net.parse_ip host) ++ port_bytes port)) in
    elim (net.parse_ip host) [
      | none ↦ if ltb 255 (length host) then none else request
      | some ip ↦ request
    ]

unfoldable pub target_request : Resolver → Bytes → Option Bytes
unfolding connect_request atoi
target_request net target = elim (net.split_host_port target) [
  | none ↦ none
  | some (host, port) ↦ elim (atoi port) [
    | none ↦ none
    | some n ↦ connect_request net host (port_bits n)
  ]
]

-- `socks5ReplyError`
unfoldable pub socks5_reply_error : ℕ → EgressError
socks5_reply_error code = record { broken = code == 1 || code == 2 || code == 7 || code == 8 }

-- How many bytes the bound address has.
unfoldable pub address_size : Bool → ℕ → M ℕ
address_size gave_up kind =
    if kind == 1
    then pure 4
    else if kind == 4
    then pure 16
    else if kind == 3
    then (do n ← read_full gave_up 1; pure (get_or n 0 0))
    else fail (broken_ctx gave_up)

unfoldable pub read_reply : Bool → Bytes → M (Unit {0})
unfolding address_size socks5_reply_error
read_reply gave_up reply =
    if not (get_or reply 0 0 == 5)
    then fail (broken_ctx gave_up)
    else if not (get_or reply 1 0 == 0)
    then fail (socks5_reply_error (get_or reply 1 0))
    else do skip ← address_size gave_up (get_or reply 3 0); read_full gave_up (skip + 2); pure tt

-- The CONNECT, once the proxy has let us in.
unfoldable pub connect : Bool → Option Bytes → M (Unit {0})
unfolding read_reply
connect gave_up none = fail unbroken
connect gave_up (some request) = do
  write gave_up request
  reply ← read_full gave_up 4
  read_reply gave_up reply

unfoldable pub socks5_handshake : Bool → Resolver → Bytes → Bytes → Bytes → M (Unit {0})
unfolding choose target_request connect
socks5_handshake gave_up net user pass target = do
  write gave_up (greeting user)
  choice ← read_full gave_up 2
  choose gave_up user pass choice
  connect gave_up (target_request net target)
