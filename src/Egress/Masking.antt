-- ===== src/Egress/Masking.antt =====
-- internal/devin/egress.go: a shown route holds nothing of its user and password.
use devin2proxy.Prelude.{
  ℕ, ◌+◌, ◌≡◌, refl, sym, ap, ◌∙◌, Bool, true, false, none, some, [], ◌∷◌, ◌++◌, ◌==◌,
  if◌then◌else◌, Bytes, codes, length, index, after_last, break_at, All, arith, append_assoc,
  length-append, take-append, drop-append,
}
use devin2proxy.Egress.Specs.{
  credential_mask, ends_authority, split_scheme, mask_authority, strip_egress_credentials,
}

-- No byte of the string passes the test.
abbrev pub Free : (ℕ → Bool) → Bytes → Type 0
Free stop s = All (λ b. stop b ≡ false) s

abbrev is_at : ℕ → Bool
is_at b = b == b'@'

-- A rest that is empty or starts where the authority ends.
abbrev pub IsTail : Bytes → Type 0
IsTail [] = Unit {0}
IsTail (b ∷ s) = ends_authority b ≡ true

break_at-append :
    (stop : ℕ → Bool) (l r : Bytes)
    → Free stop l
    → break_at stop r ≡ ([], r)
    → break_at stop (l ++ r) ≡ (l, r)
unfolding break_at
break_at-append stop [] r free e = e
break_at-append stop (b ∷ l) r free e =
    ap (λ p. if stop b then ([], b ∷ (l ++ r)) else (b ∷ p.0, p.1))
      (break_at-append stop l r free.1 e)
    ∙ ap (λ t. if t then ([], b ∷ (l ++ r)) else (b ∷ l, r)) free.0

break_at-IsTail : (r : Bytes) → IsTail r → break_at ends_authority r ≡ ([], r)
unfolding break_at
break_at-IsTail [] h = refl
break_at-IsTail (b ∷ s) h =
    ap
      (λ t.
        if t
        then ([], b ∷ s)
        else (b ∷ (break_at ends_authority s).0, (break_at ends_authority s).1))
      h

after_last-none : (c : ℕ) (s : Bytes) → Free (λ b. b == c) s → after_last c s ≡ none
unfolding after_last
after_last-none c [] free = refl
after_last-none c (b ∷ s) free = rw (after_last-none c s free.1) (rw free.0 refl)

-- The last separator is the one after which there is none.
after_last-append :
    (c : ℕ) (l r : Bytes) → Free (λ b. b == c) r → after_last c (l ++ (c ∷ r)) ≡ some r
unfolding after_last
after_last-append c [] r free = rw (after_last-none c r free) (ground arith)
after_last-append c (b ∷ l) r free = rw (after_last-append c l r free) refl

-- A scheme has no colon, so the first "://" is the one behind it.
index-scheme :
    (scheme rest : Bytes)
    → Free (λ b. b == b':') scheme
    → index (scheme ++ (codes "://" ++ rest)) (codes "://") ≡ some (length scheme)
unfolding index
index-scheme [] rest free = refl
index-scheme (b ∷ scheme) rest free = rw (index-scheme scheme rest free.1) (rw free.0 refl)

abbrev colon_slashes : Bytes
colon_slashes = codes "://"

split_scheme-some :
    (scheme rest : Bytes)
    → Free (λ b. b == b':') scheme
    → split_scheme (scheme ++ (colon_slashes ++ rest)) ≡ (scheme ++ colon_slashes, rest)
unfolding split_scheme
split_scheme-some scheme rest free =
    let whole = scheme ++ colon_slashes in
    let size : length scheme + 3 ≡ length whole = sym (length-append scheme colon_slashes) in
    let joined : scheme ++ (colon_slashes ++ rest) ≡ whole ++ rest =
      sym (append_assoc scheme colon_slashes rest) in
    rw (index-scheme scheme rest free, split_scheme)
      (rw size (rw joined (λ i. (take-append whole rest i, drop-append whole rest i))))

abbrev Authority : Bytes → Type 0
Authority = Free ends_authority

Free-append : (stop : ℕ → Bool) (l r : Bytes) → Free stop l → Free stop r → Free stop (l ++ r)
Free-append stop [] r fl fr = fr
Free-append stop (b ∷ l) r fl fr = (fl.0, Free-append stop l r fl.1 fr)

-- In a spec of a scheme without a colon, "://", user and password without "/", "?" and "#", an
-- "@", a host without these and "@", and a tail that is empty or begins with one of the three,
-- the user and password are replaced by the mask and all else stays; so what is shown is the same
-- for all of them.
pub strip_egress_credentials-masked :
    (scheme user host tail : Bytes)
    → Free (λ b. b == b':') scheme
    → Free ends_authority user
    → Free ends_authority host
    → Free (λ b. b == b'@') host
    → IsTail tail
    → strip_egress_credentials (scheme ++ (codes "://" ++ ((user ++ (b'@' ∷ host)) ++ tail)))
      ≡ (scheme ++ codes "://") ++ (credential_mask ++ (b'@' ∷ (host ++ tail)))
unfolding strip_egress_credentials mask_authority
strip_egress_credentials-masked scheme user host tail named fu fh at tailed =
    let rest = (user ++ (b'@' ∷ host)) ++ tail in
    let spec = scheme ++ (colon_slashes ++ rest) in
    let split = split_scheme-some scheme rest named in
    let cut =
      break_at-append ends_authority (user ++ (b'@' ∷ host)) tail
        (Free-append ends_authority user (b'@' ∷ host) fu (refl, fh))
        (break_at-IsTail tail tailed) in
    ap
      (λ p. mask_authority spec p.0 (break_at ends_authority p.1).0 (break_at ends_authority p.1).1)
      split
    ∙ ap (λ p. mask_authority spec (scheme ++ colon_slashes) p.0 p.1) cut
    ∙ rw (after_last-append b'@' user host at, mask_authority) refl

-- A spec without a scheme is masked in the same way.
strip_egress_credentials-bare :
    (user host tail : Bytes)
    → index ((user ++ (b'@' ∷ host)) ++ tail) (codes "://") ≡ none
    → Free ends_authority user
    → Free ends_authority host
    → Free (λ b. b == b'@') host
    → IsTail tail
    → strip_egress_credentials ((user ++ (b'@' ∷ host)) ++ tail)
      ≡ credential_mask ++ (b'@' ∷ (host ++ tail))
unfolding strip_egress_credentials mask_authority split_scheme
strip_egress_credentials-bare user host tail bare fu fh at tailed =
    let spec = (user ++ (b'@' ∷ host)) ++ tail in
    let cut =
      break_at-append ends_authority (user ++ (b'@' ∷ host)) tail
        (Free-append ends_authority user (b'@' ∷ host) fu (refl, fh))
        (break_at-IsTail tail tailed) in
    rw (bare, split_scheme)
      (ap (λ p. mask_authority spec [] p.0 p.1) cut
        ∙ rw (after_last-append b'@' user host at, mask_authority) refl)
