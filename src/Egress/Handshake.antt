-- ===== src/Egress/Handshake.antt =====
-- internal/devin/egress.go: a handshake that succeeds leaves the connection at the first byte of the
-- tunnel, and what the proxy reads of us is what was meant.
use devin2proxy.Prelude.{
  ℕ, suc, ◌+◌, ◌%◌, ◌<◌, ◌≤◌, ◌≡◌, refl, sym, ap, ◌∙◌, subst, Bool, true, false, Option, none, some,
  [], ◌∷◌, ◌++◌, ltb, ◌==◌, if◌then◌else◌, length, take, drop, Bytes, bytes_eq, get_or, arith,
  append_assoc, take-append, drop-append, length-append,
}
use devin2proxy.Egress.Socks.{
  Conn, Resolver, Result, ok, failed, ◌>>=◌, M, pure, greeting, auth_message, write, read_full,
  authenticate, choose, address_size, read_reply, connect, target_request, socks5_handshake,
  broken_ctx,
}

-- The address in a reply.
pub data Bound : Type 0 where
  four sixteen named : Bytes → Bound

abbrev pub FitsBound : Bound → Type 0
FitsBound (four b) = length b ≡ 4
FitsBound (sixteen b) = length b ≡ 16
FitsBound (named b) = length b < 256

abbrev pub bound_kind : Bound → ℕ
bound_kind (four b) = 1
bound_kind (sixteen b) = 4
bound_kind (named b) = 3

abbrev pub bound_bytes : Bound → Bytes
bound_bytes (four b) = b
bound_bytes (sixteen b) = b
bound_bytes (named b) = length b ∷ b

read_full-append :
    (gave_up : Bool) (n : ℕ) (b rest out : Bytes) (writes : ℕ)
    → length b ≡ n
    → read_full gave_up n (record { input = b ++ rest; output = out; writes = writes })
      ≡ ok b (record { input = rest; output = out; writes = writes })
unfolding read_full
read_full-append gave_up n b rest out writes size =
    let long : ltb (length (b ++ rest)) n ≡ false = ground (arith, length-append b rest, size) in
    let front : take n (b ++ rest) ≡ b =
      subst (λ k. take k (b ++ rest) ≡ b) size (take-append b rest) in
    let back : drop n (b ++ rest) ≡ rest =
      subst (λ k. drop k (b ++ rest) ≡ rest) size (drop-append b rest) in
    rw long (λ i. ok (front i) (record { input = back i; output = out; writes = writes }))

-- A step that succeeds hands its value and its connection to the next.
bind_ok :
    {A B : Type 0} (m : M A) (f : A → M B) (c c' : Conn) (a : A)
    → m c ≡ ok a c'
    → (m >>= f) c ≡ f a c'
bind_ok {A} {B} m f c c' a e =
    let after : Result A → Result B =
      λ r. elim r [ ok x c1 ↦ f x c1 | failed y c1 ↦ failed y c1 ] in
    ap after e

discard :
    (gave_up : Bool) (n : ℕ) (b rest out : Bytes) (writes : ℕ)
    → length b ≡ n
    → (read_full gave_up n >>= λ a. pure tt)
        (record { input = b ++ rest; output = out; writes = writes })
      ≡ ok tt (record { input = rest; output = out; writes = writes })
discard gave_up n b rest out writes size =
    bind_ok (read_full gave_up n) (λ a. pure tt)
      (record { input = b ++ rest; output = out; writes = writes })
      (record { input = rest; output = out; writes = writes }) b
      (read_full-append gave_up n b rest out writes size)

-- The port behind an address of the announced size.
discard_port :
    (gave_up : Bool) (n : ℕ) (b : Bytes) (p q : ℕ) (tunnel out : Bytes) (writes : ℕ)
    → length b ≡ n
    → (read_full gave_up (n + 2) >>= λ a. pure tt)
        (record { input = b ++ (p ∷ q ∷ tunnel); output = out; writes = writes })
      ≡ ok tt (record { input = tunnel; output = out; writes = writes })
discard_port gave_up n b p q tunnel out writes size =
    let joined : b ++ (p ∷ q ∷ tunnel) ≡ (b ++ (p ∷ q ∷ [])) ++ tunnel =
      sym (append_assoc b (p ∷ q ∷ []) tunnel) in
    let long : length (b ++ (p ∷ q ∷ [])) ≡ n + 2 =
      omega (arith, length-append b (p ∷ q ∷ []), size) in
    rw joined (discard gave_up (n + 2) (b ++ (p ∷ q ∷ [])) tunnel out writes long)

-- The rest of a reply behind its four bytes of head, which names an address and a port.
rest_of_reply :
    (gave_up : Bool) (bound : Bound) (r p q : ℕ) (tunnel out : Bytes) (writes : ℕ)
    → FitsBound bound
    → read_reply gave_up
        (5 ∷ 0 ∷ r ∷ bound_kind bound ∷ [])
        (record { input = bound_bytes bound ++ (p ∷ q ∷ tunnel); output = out; writes = writes })
      ≡ ok tt (record { input = tunnel; output = out; writes = writes })
unfolding read_reply
rest_of_reply gave_up (four b) r p q tunnel out writes fits =
    discard_port gave_up 4 b p q tunnel out writes fits
rest_of_reply gave_up (sixteen b) r p q tunnel out writes fits =
    discard_port gave_up 16 b p q tunnel out writes fits
rest_of_reply gave_up (named b) r p q tunnel out writes fits =
    let c : Conn = record {
      input = length b ∷ (b ++ (p ∷ q ∷ tunnel));
      output = out;
      writes = writes;
    } in
    let c' : Conn = record { input = b ++ (p ∷ q ∷ tunnel); output = out; writes = writes } in
    let sized : address_size gave_up 3 c ≡ ok (length b) c' =
      unfold address_size in
      bind_ok (read_full gave_up 1) (λ n. pure (get_or n 0 0)) c c' (length b ∷ [])
        (read_full-append gave_up 1 (length b ∷ []) (b ++ (p ∷ q ∷ tunnel)) out writes refl) in
    bind_ok (address_size gave_up 3) (λ n. read_full gave_up (n + 2) >>= λ a. pure tt) c c'
      (length b) sized
    ∙ discard_port gave_up (length b) b p q tunnel out writes refl

-- What the proxy sends to one that offers a password or not, up to the tunnel.
abbrev pub letting_in : Bool → ℕ → Bytes → Bytes
letting_in false v rest = 5 ∷ 0 ∷ rest
letting_in true v rest = 5 ∷ 2 ∷ v ∷ 0 ∷ rest

-- What is written before the request.
abbrev pub introduction : Bool → Bytes → Bytes → Bytes
introduction false user pass = greeting user
introduction true user pass = greeting user ++ auth_message user pass

abbrev pub writes_used : Bool → ℕ → ℕ
writes_used false left = suc (suc left)
writes_used true left = suc (suc (suc left))

abbrev pub reply_to : Bound → ℕ → Bytes → Bytes
reply_to bound r rest = 5 ∷ 0 ∷ r ∷ bound_kind bound ∷ (bound_bytes bound ++ rest)

module _ (gave_up : Bool) (net : Resolver) (user pass target request : Bytes) where
  connect_ok :
      (bound : Bound) (r p q : ℕ) (tunnel out : Bytes) (left : ℕ)
      → FitsBound bound
      → connect gave_up
          (some request)
          (record { input = reply_to bound r (p ∷ q ∷ tunnel); output = out; writes = suc left })
        ≡ ok tt (record { input = tunnel; output = out ++ request; writes = left })
  unfolding connect write
  connect_ok bound r p q tunnel out left fits =
      bind_ok (read_full gave_up 4) (read_reply gave_up)
        (record {
          input = reply_to bound r (p ∷ q ∷ tunnel);
          output = out ++ request;
          writes = left;
        })
        (record {
          input = bound_bytes bound ++ (p ∷ q ∷ tunnel);
          output = out ++ request;
          writes = left;
        })
        (5 ∷ 0 ∷ r ∷ bound_kind bound ∷ [])
        (read_full-append gave_up 4 (5 ∷ 0 ∷ r ∷ bound_kind bound ∷ [])
          (bound_bytes bound ++ (p ∷ q ∷ tunnel)) (out ++ request) left refl)
      ∙ rest_of_reply gave_up bound r p q tunnel (out ++ request) left fits

  authenticate_ok :
      (v : ℕ) (rest out : Bytes) (left : ℕ)
      → bytes_eq user [] ≡ false
      → authenticate gave_up user pass
          (record { input = v ∷ 0 ∷ rest; output = out; writes = suc left })
        ≡ ok tt (record { input = rest; output = out ++ auth_message user pass; writes = left })
  unfolding authenticate write
  authenticate_ok v rest out left given =
      ap
        (λ (b : Bool).
          (if b
              then (λ (c : Conn). failed (broken_ctx gave_up) c)
              else (write gave_up (auth_message user pass) >>= λ u. read_full gave_up 2 >>= λ reply.
                  if get_or reply 1 0 == 0 then pure tt else (λ c. failed (broken_ctx gave_up) c)))
            (record { input = v ∷ 0 ∷ rest; output = out; writes = suc left }))
        given
      ∙ bind_ok (read_full gave_up 2)
          (λ reply. if get_or reply 1 0 == 0 then pure tt else (λ c. failed (broken_ctx gave_up) c))
          (record { input = v ∷ 0 ∷ rest; output = out ++ auth_message user pass; writes = left })
          (record { input = rest; output = out ++ auth_message user pass; writes = left })
          (v ∷ 0 ∷ [])
          (read_full-append gave_up 2 (v ∷ 0 ∷ []) rest (out ++ auth_message user pass) left refl)

  -- The handshake once the choice of the proxy has been followed.
  after_choice :
      (m n : ℕ) (input out : Bytes) (bound : Bound) (r p q : ℕ) (tunnel : Bytes) (writes left : ℕ)
      → target_request net target ≡ some request
      → FitsBound bound
      → choose gave_up user pass
          (m ∷ n ∷ [])
          (record { input = input; output = greeting user; writes = writes })
        ≡ ok tt
            (record { input = reply_to bound r (p ∷ q ∷ tunnel); output = out; writes = suc left })
      → socks5_handshake gave_up net user pass target
          (record { input = m ∷ n ∷ input; output = []; writes = suc writes })
        ≡ ok tt (record { input = tunnel; output = out ++ request; writes = left })
  unfolding socks5_handshake write
  after_choice m n input out bound r p q tunnel writes left asked fits chosen =
      let c : Conn = record { input = m ∷ n ∷ input; output = greeting user; writes = writes } in
      let c1 : Conn = record { input = input; output = greeting user; writes = writes } in
      let c2 : Conn = record {
        input = reply_to bound r (p ∷ q ∷ tunnel);
        output = out;
        writes = suc left;
      } in
      bind_ok (read_full gave_up 2)
        (λ choice.
          choose gave_up user pass choice >>= λ u. connect gave_up (target_request net target))
        c c1 (m ∷ n ∷ [])
        (read_full-append gave_up 2 (m ∷ n ∷ []) input (greeting user) writes refl)
      ∙ bind_ok (choose gave_up user pass (m ∷ n ∷ []))
          (λ u. connect gave_up (target_request net target)) c1 c2 tt chosen
      ∙ ap (λ o. connect gave_up o c2) asked
      ∙ connect_ok bound r p q tunnel out left fits

  -- With a proxy that chooses either method, accepts the password if it asks for one, and answers
  -- the request with success and any bound address, and where the target can be asked for and no
  -- write fails, the handshake of a route with a user name succeeds: it reads to the first byte
  -- of the tunnel and no further, and it has written the greeting, the password exactly if it was
  -- asked for, and the request.
  pub socks5_handshake-ok :
      (auth : Bool) (bound : Bound) (v r p q : ℕ) (tunnel : Bytes) (left : ℕ)
      → bytes_eq user [] ≡ false
      → target_request net target ≡ some request
      → FitsBound bound
      → socks5_handshake gave_up net user pass target (record {
        input = letting_in auth v (reply_to bound r (p ∷ q ∷ tunnel));
        output = [];
        writes = writes_used auth left;
      })
        ≡ ok tt (record {
          input = tunnel;
          output = introduction auth user pass ++ request;
          writes = left;
        })
  unfolding choose
  socks5_handshake-ok true bound v r p q tunnel left given asked fits =
      let rest = reply_to bound r (p ∷ q ∷ tunnel) in
      after_choice 5 2 (v ∷ 0 ∷ rest) (greeting user ++ auth_message user pass) bound r p q tunnel
        (suc (suc left)) left asked fits (authenticate_ok v rest (greeting user) (suc left) given)
  socks5_handshake-ok false bound v r p q tunnel left given asked fits =
      after_choice 5 0 (reply_to bound r (p ∷ q ∷ tunnel)) (greeting user) bound r p q tunnel
        (suc left) left asked fits refl

-- The server's side of RFC 1929: a version, then two fields with their lengths.
unfoldable pub read_login : Bytes → Option (Bytes × Bytes × Bytes)
read_login [] = none
read_login (version ∷ []) = none
read_login (version ∷ n ∷ s) = elim (drop n s) [
  | [] ↦ none
  | m ∷ t ↦ some (take n s, take m t, drop m t)
]

-- A server reads back the user, the password and what follows, where each takes at most 255 bytes.
pub read_login-auth_message :
    (user pass rest : Bytes)
    → length user ≤ 255
    → length pass ≤ 255
    → read_login (auth_message user pass ++ rest) ≡ some (user, pass, rest)
unfolding read_login
read_login-auth_message user pass rest hu hp =
    let m : length user % 256 ≡ length user = omega arith in
    let n : length pass % 256 ≡ length pass = omega arith in
    let tail = length pass ∷ (pass ++ rest) in
    let joined : (user ++ ((length pass % 256) ∷ pass)) ++ rest ≡ user ++ tail =
      append_assoc user ((length pass % 256) ∷ pass) rest
      ∙ ap (λ k. user ++ (k ∷ (pass ++ rest))) n in
    ap (λ k. read_login (1 ∷ k ∷ ((user ++ ((length pass % 256) ∷ pass)) ++ rest))) m
    ∙ ap (λ t. read_login (1 ∷ length user ∷ t)) joined
    ∙ rw (drop-append user tail, read_login)
        (λ i. some (take-append user tail i, take-append pass rest i, drop-append pass rest i))
