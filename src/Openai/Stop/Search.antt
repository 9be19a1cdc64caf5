-- ===== src/Openai/Stop/Search.antt =====
-- internal/openai/translate.go: where a stop first begins, in a text and in its end.
use mathlib.Core.Option
use native.Mathlib.Nat.{zero-add}
use devin2proxy.Prelude.{
  ℕ, suc, ◌+◌, ◌≤◌, ◌≡◌, refl, sym, ap, ◌∙◌, inl, inr, false, ◌&&◌, Bool-cases, Option-cases,
  Option, none, some, List, [], ◌∷◌, ◌++◌, Bytes, ◌==◌, length, length-append, index, has_prefix,
  append_assoc, All, arith,
}
use devin2proxy.Openai.Stop.{earlier, index_of_stop_from}

abbrev pub first_stop : List Bytes → Bytes → Option ℕ
first_stop stops text = index_of_stop_from stops text none

has_prefix-append : (x s p : Bytes) → length p ≤ length x → has_prefix (x ++ s) p ≡ has_prefix x p
has_prefix-append x s [] h = refl
has_prefix-append [] s (c ∷ p) h = absurd (omega arith)
has_prefix-append (b ∷ x) s (c ∷ p) h =
    ap (λ t. (b == c) && t) (has_prefix-append x s p (omega arith))

abbrev pub shift : ℕ → Option ℕ → Option ℕ
shift n none = none
shift n (some i) = some (n + i)

index-cons_none :
    (b : ℕ) (x p : Bytes)
    → index (b ∷ x) p ≡ none
    → (has_prefix (b ∷ x) p ≡ false) × (index x p ≡ none)
unfolding index
index-cons_none b x p h = elim (Bool-cases (has_prefix (b ∷ x) p)) [
  | inl begins ↦ absurd (ground (arith, begins, h))
  | inr apart ↦ elim (Option-cases (index x p)) [
    | inl gone ↦ (apart, gone)
    | inr (i, found) ↦
        let seen : index (b ∷ x) p ≡ some (suc i) = rw (apart, found) refl in
        absurd (ground (arith, h, seen))
  ]
]

shift-zero : (o : Option ℕ) → shift 0 o ≡ o
shift-zero none = refl
shift-zero (some i) = ap (λ n. some n) (zero-add i)

shift-suc : (n : ℕ) (o : Option ℕ) → Option.map (λ i. suc i) (shift n o) ≡ shift (suc n) o
shift-suc n none = refl
shift-suc n (some i) = ap (λ m. some m) (omega arith)

index-cons_apart :
    (b : ℕ) (x p : Bytes)
    → has_prefix (b ∷ x) p ≡ false
    → index (b ∷ x) p ≡ Option.map (λ i. suc i) (index x p)
unfolding index
index-cons_apart b x p h = rw h refl

-- A stop that is not in `e ++ held` begins in `held ++ s`, if it is at most one longer than `held`.
index-shift :
    (e held s p : Bytes)
    → index (e ++ held) p ≡ none
    → (1 ≤ length e → length p ≤ length held + 1)
    → index (e ++ (held ++ s)) p ≡ shift (length e) (index (held ++ s) p)
index-shift [] held s p h small = sym (shift-zero (index (held ++ s) p))
index-shift (b ∷ e) held s p h small =
    let (apart, gone) = index-cons_none b (e ++ held) p h in
    let fits : length p ≤ length (b ∷ (e ++ held)) =
      omega (arith, small (omega arith), length-append e held) in
    let apart' : has_prefix (b ∷ (e ++ (held ++ s))) p ≡ false =
      ap (λ t. has_prefix (b ∷ t) p) (sym (append_assoc e held s))
      ∙ has_prefix-append (b ∷ (e ++ held)) s p fits
      ∙ apart in
    index-cons_apart b (e ++ (held ++ s)) p apart'
    ∙ ap (Option.map (λ i. suc i)) (index-shift e held s p gone (λ _. small (omega arith)))
    ∙ shift-suc (length e) (index (held ++ s) p)

-- The same for the first of several stops.
earlier-shift : (n : ℕ) (a b : Option ℕ) → earlier (shift n a) (shift n b) ≡ shift n (earlier a b)
earlier-shift n none none = refl
earlier-shift n (some a) none = refl
earlier-shift n none (some b) = refl
earlier-shift n (some a) (some b) = ground arith

earlier-none : (a b : Option ℕ) → earlier a b ≡ none → (a ≡ none) × (b ≡ none)
earlier-none none none h = (refl, refl)
earlier-none (some a) none h = (h, refl)
earlier-none none (some b) h = (refl, h)
earlier-none (some a) (some b) h = absurd (ground arith)

pub first_stop-none :
    (stops : List Bytes) (text : Bytes) (best : Option ℕ)
    → index_of_stop_from stops text best ≡ none
    → (best ≡ none) × All (λ p. index text p ≡ none) stops
unfolding index_of_stop_from
first_stop-none [] text best h = (h, tt)
first_stop-none (p ∷ stops) text best h =
    let (first, others) = first_stop-none stops text (earlier best (index text p)) h in
    let (start, here) = earlier-none best (index text p) first in (start, (here, others))

pub first_stop-shift :
    (e held s : Bytes) (stops : List Bytes) (best : Option ℕ)
    → All (λ p. index (e ++ held) p ≡ none) stops
    → All (λ p. 1 ≤ length e → length p ≤ length held + 1) stops
    → index_of_stop_from stops (e ++ (held ++ s)) (shift (length e) best)
      ≡ shift (length e) (index_of_stop_from stops (held ++ s) best)
unfolding index_of_stop_from
first_stop-shift e held s [] best h small = refl
first_stop-shift e held s (p ∷ stops) best (h, hs) (small, smalls) =
    ap (λ o. index_of_stop_from stops (e ++ (held ++ s)) (earlier (shift (length e) best) o))
      (index-shift e held s p h small)
    ∙ ap (index_of_stop_from stops (e ++ (held ++ s)))
        (earlier-shift (length e) best (index (held ++ s) p))
    ∙ first_stop-shift e held s stops (earlier best (index (held ++ s) p)) hs smalls
