-- ===== src/Pool/Identity.antt =====
-- Which credential an address and an index stand for, through removals and renumbering.
use devin2proxy.Prelude.{
  ℕ, zero, suc, ◌+◌, ◌<◌, ◌≡◌, refl, ◌≢◌, ap, ◌∙◌, ◌↔◌, inl, inr, true, Option, some, none, arith,
  List, [], ◌∷◌, get_elem?, remove_at, All, Bool-cases,
}
use devin2proxy.Pool.Accounts.{
  Credentials, Pool, set_index, renumber, same_entry, index_at, index_locked,
}

abbrev pub NotIn : ℕ → List ℕ → Type 0
NotIn a es = All (λ e. e ≢ a) es

-- No address stands twice.
abbrev pub Distinct : List ℕ → Type 0
Distinct [] = Unit {0}
Distinct (e ∷ es) = NotIn e es × Distinct es

-- Each credential of `es` carries its own position, counted from `k`.
abbrev pub Numbered : (ℕ → Credentials) → ℕ → List ℕ → Type 0
Numbered heap k [] = Unit {0}
Numbered heap k (e ∷ es) = ((heap e).pool_index ≡ some k) × Numbered heap (k + 1) es

Numbered-above :
    (heap : ℕ → Credentials) (k j a : ℕ) (es : List ℕ)
    → (heap a).pool_index ≡ some j
    → j < k
    → Numbered heap k es
    → NotIn a es
Numbered-above heap k j a [] at lt n = tt
Numbered-above heap k j a (e ∷ es) at lt n = (
  (λ same. ground (arith, ap (λ t. (heap t).pool_index) same)),
  Numbered-above heap (k + 1) j a es at (omega arith) n.1,
)

pub Numbered-Distinct :
    (heap : ℕ → Credentials) (k : ℕ) (es : List ℕ) → Numbered heap k es → Distinct es
Numbered-Distinct heap k [] n = tt
Numbered-Distinct heap k (e ∷ es) n = (
  Numbered-above heap (k + 1) k e es n.0 (omega arith) n.1,
  Numbered-Distinct heap (k + 1) es n.1,
)

NotIn-remove_at : (a i : ℕ) (es : List ℕ) → NotIn a es → NotIn a (remove_at es i)
NotIn-remove_at a i [] n = tt
NotIn-remove_at a zero (e ∷ es) n = n.1
NotIn-remove_at a (suc i) (e ∷ es) n = (n.0, NotIn-remove_at a i es n.1)

pub Distinct-remove_at : (i : ℕ) (es : List ℕ) → Distinct es → Distinct (remove_at es i)
Distinct-remove_at i [] d = tt
Distinct-remove_at zero (e ∷ es) d = d.1
Distinct-remove_at (suc i) (e ∷ es) d = (NotIn-remove_at e i es d.0, Distinct-remove_at i es d.1)

-- The entry that is removed stands nowhere else.
pub NotIn-removed :
    (i a : ℕ) (es : List ℕ) → Distinct es → get_elem? es i ≡ some a → NotIn a (remove_at es i)
NotIn-removed i a [] d at = tt
NotIn-removed zero a (e ∷ es) d at = let same : e ≡ a = cc in rw (← same) d.0
NotIn-removed (suc i) a (e ∷ es) d at = (apart es i d.0 at, NotIn-removed i a es d.1 at)
  where
    apart : (xs : List ℕ) (j : ℕ) → NotIn e xs → get_elem? xs j ≡ some a → e ≢ a
    apart [] j n at' = ground arith
    apart (x ∷ xs) zero n at' = λ same. n.0 (ground arith)
    apart (x ∷ xs) (suc j) n at' = apart xs j n.1 at'

pub renumber_other :
    (heap : ℕ → Credentials) (k a : ℕ) (es : List ℕ) → NotIn a es → renumber heap k es a ≡ heap a
unfolding renumber
renumber_other heap k a [] n = refl
renumber_other heap k a (e ∷ es) n =
    renumber_other (set_index heap e k) (k + 1) a es n.1 ∙ ground (arith, n.0)

-- Renumbering touches no field but the index.
pub api_key-renumber :
    (heap : ℕ → Credentials) (k a : ℕ) (es : List ℕ)
    → (renumber heap k es a).api_key ≡ (heap a).api_key
unfolding renumber
api_key-renumber heap k a [] = refl
api_key-renumber heap k a (e ∷ es) =
    api_key-renumber (set_index heap e k) (k + 1) a es ∙ ground arith

pub renumber-Numbered :
    (heap : ℕ → Credentials) (k : ℕ) (es : List ℕ)
    → Distinct es
    → Numbered (renumber heap k es) k es
unfolding renumber
renumber-Numbered heap k [] d = tt
renumber-Numbered heap k (e ∷ es) d = (
  ap (λ c. c.pool_index) (renumber_other (set_index heap e k) (k + 1) e es d.0) ∙ ground arith,
  renumber-Numbered (set_index heap e k) (k + 1) es d.1,
)

Numbered-get_elem? :
    (heap : ℕ → Credentials) (k i a : ℕ) (es : List ℕ)
    → Numbered heap k es
    → get_elem? es i ≡ some a
    → (heap a).pool_index ≡ some (k + i)
Numbered-get_elem? heap k i a [] n at = cc
Numbered-get_elem? heap k zero a (e ∷ es) n at = ground arith
Numbered-get_elem? heap k (suc i) a (e ∷ es) n at =
    Numbered-get_elem? heap (k + 1) i a es n.1 at ∙ ap some (omega arith)

get_elem?_of_same : (o : Option ℕ) (c : ℕ) → same_entry o c ≡ true → o ≡ some c
get_elem?_of_same none c h = cc
get_elem?_of_same (some e) c h = ground arith

same_entry_refl : (c : ℕ) → same_entry (some c) c ≡ true
same_entry_refl c = ground arith

index_at_sound :
    (p : Pool) (c i : ℕ) (o : Option ℕ)
    → index_at p c o ≡ some i
    → (o ≡ some i) × (get_elem? p.entries i ≡ some c)
unfolding index_at
index_at_sound p c i none h = cc
index_at_sound p c i (some j) h = elim (Bool-cases (same_entry (get_elem? p.entries j) c)) [
  | inl yes' ↦
      let same : j ≡ i = ground arith in (ap some same, rw (← same) (get_elem?_of_same _ c yes'))
  | inr no' ↦ ground arith
]

-- `indexLocked` answers `i` exactly when the pool holds this very credential in slot `i`.
pub index_locked_iff :
    (p : Pool) (c i : ℕ)
    → Numbered p.heap 0 p.entries
    → (index_locked p (some c) ≡ some i) ↔ (get_elem? p.entries i ≡ some c)
unfolding index_locked
index_locked_iff p c i n = (
  (λ h. (index_at_sound p c i (p.heap c).pool_index h).1),
  (λ at.
      let own : (p.heap c).pool_index ≡ some i =
        Numbered-get_elem? p.heap 0 i c p.entries n at ∙ ap some (omega arith) in
      rw own (unfold index_at in rw (at, same_entry_refl c))),
)
