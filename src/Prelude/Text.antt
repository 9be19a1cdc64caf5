-- ===== src/Prelude/Text.antt =====
-- The functions of Go's `strings` that the program uses, over bytes. White space is the ASCII one.
use Prim.Native.Nat.{ℕ, suc, ◌+◌, ◌-◌, ◌*◌, ◌^◌}
use Prim.Native.Char.{code}
use Prim.Native.String.{String}
use mathlib.Core.Bool.{Bool, true, false, ◌||◌, ◌&&◌}
use mathlib.Core.List.{List, [], ◌∷◌, reverse}
use mathlib.Core.Option.{Option, none, some}
use mathlib.Core.Option
use devin2proxy.Prelude.Tests.{Bytes, leb, ◌==◌, bytes_eq, if◌then◌else◌}

-- The bytes of a literal, which is ASCII.
abbrev pub codes : String → Bytes
codes String.[] = []
codes (String.◌∷◌ c s) = code c ∷ codes s

abbrev pub is_space : ℕ → Bool
is_space b = b == 32 || (leb 9 b && leb b 13)

unfoldable pub trim_left : (ℕ → Bool) → Bytes → Bytes
trim_left cut [] = []
trim_left cut (b ∷ s) = let rest = trim_left cut s in if cut b then rest else b ∷ s

unfoldable pub trim_right : (ℕ → Bool) → Bytes → Bytes
unfolding trim_left
trim_right cut s = reverse (trim_left cut (reverse s))

unfoldable pub trim : (ℕ → Bool) → Bytes → Bytes
unfolding trim_left trim_right
trim cut s = trim_right cut (trim_left cut s)

-- `strings.TrimSpace`
abbrev pub trim_space : Bytes → Bytes
trim_space = trim is_space

-- What stands before the first such byte.
unfoldable pub before_byte : ℕ → Bytes → Bytes
before_byte c [] = []
before_byte c (b ∷ s) = let rest = before_byte c s in if b == c then [] else b ∷ rest

-- `strings.HasPrefix s p`
abbrev pub has_prefix : Bytes → Bytes → Bool
has_prefix s [] = true
has_prefix [] (c ∷ p) = false
has_prefix (b ∷ s) (c ∷ p) = (b == c) && has_prefix s p

-- `strings.Index s p`, with `none` for -1.
unfoldable pub index : Bytes → Bytes → Option ℕ
index [] p = if has_prefix [] p then some 0 else none
index (b ∷ s) p =
    let rest = index s p in if has_prefix (b ∷ s) p then some 0 else Option.map (λ i. suc i) rest

unfoldable pub contains_bytes : List Bytes → Bytes → Bool
contains_bytes [] s = false
contains_bytes (t ∷ ts) s = bytes_eq t s || contains_bytes ts s

-- `strings.CutPrefix`
unfoldable pub cut_prefix : Bytes → Bytes → Option Bytes
cut_prefix s [] = some s
cut_prefix [] (c ∷ p) = none
cut_prefix (b ∷ s) (c ∷ p) = let rest = cut_prefix s p in if b == c then rest else none

-- `strings.TrimPrefix`
unfoldable pub trim_prefix : Bytes → Bytes → Bytes
unfolding cut_prefix
trim_prefix s p = elim (cut_prefix s p) [ none ↦ s | some rest ↦ rest ]

-- `strings.TrimSuffix`
unfoldable pub trim_suffix : Bytes → Bytes → Bytes
unfolding trim_prefix
trim_suffix s p = reverse (trim_prefix (reverse s) (reverse p))

-- What follows the last such byte, `none` if there is none (`strings.LastIndex` of one byte).
unfoldable pub after_last : ℕ → Bytes → Option Bytes
after_last c [] = none
after_last c (b ∷ s) = elim (after_last c s) [
  | some rest ↦ some rest
  | none ↦ if b == c then some s else none
]

-- The bytes up to the first that passes the test, and the rest from it on.
unfoldable pub break_at : (ℕ → Bool) → Bytes → Bytes × Bytes
break_at stop [] = ([], [])
break_at stop (b ∷ s) = let (l, r) = break_at stop s in if stop b then ([], b ∷ s) else (b ∷ l, r)

-- `strings.Split` at a byte.
unfoldable pub split_at : ℕ → Bytes → List Bytes
split_at c [] = [] ∷ []
split_at c (b ∷ s) = elim (split_at c s) [
  | [] ↦ []
  | part ∷ parts ↦ if b == c then [] ∷ part ∷ parts else (b ∷ part) ∷ parts
]

unfoldable pub digits : ℕ → Bytes → Option ℕ
digits n [] = some n
digits n (b ∷ s) =
    let rest = digits (n * 10 + (b - 48)) s in if leb 48 b && leb b 57 then rest else none

-- The number of a run of digits that is not empty and stays within a limit.
unfoldable pub magnitude : ℕ → Bytes → Option ℕ
unfolding digits
magnitude limit [] = none
magnitude limit (b ∷ s) = elim (digits 0 (b ∷ s)) [
  | none ↦ none
  | some n ↦ if leb n limit then some n else none
]

-- `strconv.Atoi`, as a sign (true below zero) and a size.
unfoldable pub atoi : Bytes → Option (Bool × ℕ)
unfolding magnitude
atoi [] = none
atoi (b ∷ s) =
    if b == b'-'
    then Option.map (λ n. (true, n)) (magnitude (2 ^ 63) s)
    else if b == b'+'
    then Option.map (λ n. (false, n)) (magnitude (2 ^ 63 - 1) s)
    else Option.map (λ n. (false, n)) (magnitude (2 ^ 63 - 1) (b ∷ s))
