-- ===== src/Pool/Invariant.antt =====
-- The invariant of the pool, and how its parts pass through changes of the heap and the entries.
use devin2proxy.Prelude.{
  ℕ, zero, suc, ◌+◌, ◌<◌, ◌≡◌, refl, ap, ◌∙◌, false, ◌||◌, Option, some, none, arith, List, [], ◌∷◌,
  ◌++◌, length, remove_at, All, Bytes, bytes_eq,
}
use devin2proxy.Rotate.Deadlines.{IsPlaced}
use devin2proxy.Pool.Accounts.{Credentials, Pool, store, renumber, holds_key}
use devin2proxy.Pool.Identity.{Numbered, api_key-renumber}

-- No two entries hold one key.
abbrev pub KeysDistinct : (ℕ → Credentials) → List ℕ → Type 0
KeysDistinct heap [] = Unit {0}
KeysDistinct heap (e ∷ es) = (holds_key heap es (heap e).api_key ≡ false) × KeysDistinct heap es

abbrev pub Below : ℕ → List ℕ → Type 0
Below n es = All (λ e. e < n) es

abbrev pub InRange : ℕ → Option ℕ → Type 0
InRange n none = Unit {0}
InRange n (some i) = i < n

pub record IsConsistent (p : Pool) : Type 0 where
  pub slots : length p.rot.cooling ≡ length p.entries
  pub busy_slots : length p.busy ≡ length p.entries
  pub quota_slots : length p.quota_cool_until ≡ length p.entries
  pub placed : IsPlaced p.rot
  pub numbered : Numbered p.heap 0 p.entries
  pub allocated : Below p.fresh p.entries
  pub keys : KeysDistinct p.heap p.entries
  pub last : InRange (length p.entries) p.last_rotation

-- The heap changes outside the entries, or in fields other than the key.
pub Numbered-store :
    (heap : ℕ → Credentials) (n : ℕ) (c : Credentials) (k : ℕ) (es : List ℕ)
    → Below n es
    → Numbered heap k es
    → Numbered (store heap n c) k es
Numbered-store heap n c k [] b v = tt
Numbered-store heap n c k (e ∷ es) b v =
    (ground (arith, b.0, v.0), Numbered-store heap n c (k + 1) es b.1 v.1)

pub holds_key-store :
    (heap : ℕ → Credentials) (n : ℕ) (c : Credentials) (tok : Bytes) (es : List ℕ)
    → Below n es
    → holds_key (store heap n c) es tok ≡ holds_key heap es tok
unfolding holds_key
holds_key-store heap n c tok [] b = refl
holds_key-store heap n c tok (e ∷ es) b = ground (arith, b.0, holds_key-store heap n c tok es b.1)

pub Numbered-append :
    (heap : ℕ → Credentials) (k f : ℕ) (es : List ℕ)
    → Numbered heap k es
    → (heap f).pool_index ≡ some (k + length es)
    → Numbered heap k (es ++ (f ∷ []))
Numbered-append heap k f [] v own = (own ∙ ap some (omega arith), tt)
Numbered-append heap k f (e ∷ es) v own =
    (v.0, Numbered-append heap (k + 1) f es v.1 (own ∙ ap some (omega arith)))

pub Below-append : (n f : ℕ) (es : List ℕ) → Below n es → f < n → Below n (es ++ (f ∷ []))
Below-append n f [] b h = (h, tt)
Below-append n f (e ∷ es) b h = (b.0, Below-append n f es b.1 h)

pub Below-suc : (n : ℕ) (es : List ℕ) → Below n es → Below (suc n) es
Below-suc n [] b = tt
Below-suc n (e ∷ es) b = (omega arith, Below-suc n es b.1)

bytes_eq_symm : (xs ys : Bytes) → bytes_eq xs ys ≡ bytes_eq ys xs
bytes_eq_symm [] [] = refl
bytes_eq_symm [] (y ∷ ys) = refl
bytes_eq_symm (x ∷ xs) [] = refl
bytes_eq_symm (x ∷ xs) (y ∷ ys) = ground (arith, bytes_eq_symm xs ys)

pub holds_key-append :
    (heap : ℕ → Credentials) (f : ℕ) (tok : Bytes) (es : List ℕ)
    → holds_key heap (es ++ (f ∷ [])) tok ≡ (holds_key heap es tok || bytes_eq (heap f).api_key tok)
unfolding holds_key
holds_key-append heap f tok [] = ground arith
holds_key-append heap f tok (e ∷ es) = ground (arith, holds_key-append heap f tok es)

pub KeysDistinct-append :
    (heap : ℕ → Credentials) (f : ℕ) (es : List ℕ)
    → KeysDistinct heap es
    → holds_key heap es (heap f).api_key ≡ false
    → KeysDistinct heap (es ++ (f ∷ []))
unfolding holds_key
KeysDistinct-append heap f [] d h = (refl, tt)
KeysDistinct-append heap f (e ∷ es) d h = (
  ground (
    arith,
    d.0,
    holds_key-append heap f (heap e).api_key es,
    bytes_eq_symm (heap e).api_key (heap f).api_key,
  ),
  KeysDistinct-append heap f es d.1 (ground arith),
)

pub KeysDistinct-store :
    (heap : ℕ → Credentials) (n : ℕ) (c : Credentials) (es : List ℕ)
    → Below n es
    → KeysDistinct heap es
    → KeysDistinct (store heap n c) es
KeysDistinct-store heap n c [] b d = tt
KeysDistinct-store heap n c (e ∷ es) b d = (
  ground (arith, b.0, d.0, holds_key-store heap n c (heap e).api_key es b.1),
  KeysDistinct-store heap n c es b.1 d.1,
)

pub Below-remove_at : (n i : ℕ) (es : List ℕ) → Below n es → Below n (remove_at es i)
Below-remove_at n i [] b = tt
Below-remove_at n zero (e ∷ es) b = b.1
Below-remove_at n (suc i) (e ∷ es) b = (b.0, Below-remove_at n i es b.1)

holds_key-remove_at :
    (heap : ℕ → Credentials) (tok : Bytes) (i : ℕ) (es : List ℕ)
    → holds_key heap es tok ≡ false
    → holds_key heap (remove_at es i) tok ≡ false
unfolding holds_key
holds_key-remove_at heap tok i [] h = h
holds_key-remove_at heap tok zero (e ∷ es) h = ground arith
holds_key-remove_at heap tok (suc i) (e ∷ es) h = ground (arith, holds_key-remove_at heap tok i es)

pub KeysDistinct-remove_at :
    (heap : ℕ → Credentials) (i : ℕ) (es : List ℕ)
    → KeysDistinct heap es
    → KeysDistinct heap (remove_at es i)
KeysDistinct-remove_at heap i [] d = tt
KeysDistinct-remove_at heap zero (e ∷ es) d = d.1
KeysDistinct-remove_at heap (suc i) (e ∷ es) d =
    (holds_key-remove_at heap (heap e).api_key i es d.0, KeysDistinct-remove_at heap i es d.1)

holds_key-renumber :
    (heap : ℕ → Credentials) (ns : List ℕ) (tok : Bytes) (es : List ℕ)
    → holds_key (renumber heap 0 ns) es tok ≡ holds_key heap es tok
unfolding holds_key
holds_key-renumber heap ns tok [] = refl
holds_key-renumber heap ns tok (e ∷ es) =
    rw (api_key-renumber heap 0 e ns, holds_key-renumber heap ns tok es)

pub KeysDistinct-renumber :
    (heap : ℕ → Credentials) (ns es : List ℕ)
    → KeysDistinct heap es
    → KeysDistinct (renumber heap 0 ns) es
KeysDistinct-renumber heap ns [] d = tt
KeysDistinct-renumber heap ns (e ∷ es) d = (
  rw (api_key-renumber heap 0 e ns, holds_key-renumber heap ns (heap e).api_key es) d.0,
  KeysDistinct-renumber heap ns es d.1,
)
