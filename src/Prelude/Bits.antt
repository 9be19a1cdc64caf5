-- ===== src/Prelude/Bits.antt =====
-- Shifts and masks as arithmetic.
use Prim.Native.Nat.{
  ℕ, zero, suc, ◌+◌, ◌*◌, ◌/◌, ◌%◌, ◌^◌, ◌≤◌, ◌<◌, max, bit_and, bit_or, digits, bit_or-bitwise,
}
use mathlib.Core.Path.{◌≡◌, refl, sym, ap, ◌∙◌, subst}
use mathlib.Core.Logic.{inl, inr}
use native.Mathlib.Decide.{dec_le}
use mathlib.Core.Bool.{Bool, true, false}
use native.Mathlib.Omega.{arith}
use native.Mathlib.Nat.{pow-suc, max_comm}
use devin2proxy.Prelude.Tests.{Bool-cases, if◌then◌else◌, ◌==◌, ==_iff}

-- A law of bytes holds of the bytes up to `top`.
holds_to : ℕ → (ℕ → Bool) → Bool
holds_to zero law = law 0
holds_to (suc top) law = if law (suc top) then holds_to top law else false

holds_to→law : (law : ℕ → Bool) (top b : ℕ) → b ≤ top → holds_to top law ≡ true → law b ≡ true
unfolding holds_to
holds_to→law law zero b h e = let first : 0 ≡ b = omega arith in subst (λ c. law c ≡ true) first e
holds_to→law law (suc top) b h e = elim (Bool-cases (law (suc top))) [
  | inr broken ↦ ground arith
  | inl kept ↦ elim (dec_le b top) [
    | yes below ↦ holds_to→law law top b below (ground arith)
    | no above ↦ let last : suc top ≡ b = omega arith in subst (λ c. law c ≡ true) last kept
  ]
]

byte_low : holds_to 255 (λ b. bit_and b 0x7f == b % 128) ≡ true
unfolding holds_to
byte_low = refl

byte_high : holds_to 255 (λ b. bit_or b 0x80 == b % 128 + 128) ≡ true
unfolding holds_to
byte_high = refl

byte_top : holds_to 255 (λ b. bit_and b 0xfe == b / 2 * 2) ≡ true
unfolding holds_to
byte_top = refl

by_bytes : (f g : ℕ → ℕ) (b : ℕ) → b < 256 → holds_to 255 (λ c. f c == g c) ≡ true → f b ≡ g b
by_bytes f g b h table =
    (==_iff (f b) (g b)).0 (holds_to→law (λ c. f c == g c) 255 b (omega arith) table)

pub bit_and_low : (b : ℕ) → b < 256 → bit_and b 0x7f ≡ b % 128
bit_and_low b h = by_bytes (λ c. bit_and c 0x7f) (λ c. c % 128) b h byte_low

pub bit_or_high : (b : ℕ) → b < 256 → bit_or b 0x80 ≡ b % 128 + 128
bit_or_high b h = by_bytes (λ c. bit_or c 0x80) (λ c. c % 128 + 128) b h byte_high

pub bit_and_top : (b : ℕ) → b < 256 → bit_and b 0xfe ≡ b / 2 * 2
bit_and_top b h = by_bytes (λ c. bit_and c 0xfe) (λ c. c / 2 * 2) b h byte_top

-- An "or" runs over binary digits on fuel: the left number is fuel enough, and more changes nothing.
abbrev or_on : ℕ → ℕ → ℕ → ℕ
or_on fuel = digits (λ b. b) max fuel

or_on-zero : (fuel b : ℕ) → or_on fuel 0 b ≡ b
or_on-zero zero b = refl
or_on-zero (suc fuel) b = refl

or_on-suc : (fuel a b : ℕ) → a ≤ fuel → or_on (suc fuel) a b ≡ or_on fuel a b
or_on-suc fuel zero b h = sym (or_on-zero fuel b)
or_on-suc zero (suc a) b h = absurd (omega arith)
or_on-suc (suc fuel) (suc a) b h =
    ap (λ t. t * 2 + max (suc a % 2) (b % 2)) (or_on-suc fuel (suc a / 2) (b / 2) (omega arith))

pub zero-bit_or : (b : ℕ) → bit_or 0 b ≡ b
zero-bit_or b = bit_or-bitwise 0 b

or_on-bit_or : (fuel a b : ℕ) → a ≤ fuel → or_on fuel a b ≡ bit_or a b
or_on-bit_or zero a b h =
    let none_left : 0 ≡ a = omega arith in
    subst (λ c. or_on 0 c b ≡ bit_or c b) none_left (sym (zero-bit_or b))
or_on-bit_or (suc fuel) a b h = elim (dec_le a fuel) [
  | yes below ↦ or_on-suc fuel a b below ∙ or_on-bit_or fuel a b below
  | no above ↦
      let same : suc fuel ≡ a = omega arith in
      subst (λ c. or_on c a b ≡ bit_or a b) (sym same) (sym (bit_or-bitwise a b))
]

bit_or_step : (a b : ℕ) → bit_or a b ≡ bit_or (a / 2) (b / 2) * 2 + max (a % 2) (b % 2)
bit_or_step zero b =
    let halves : b ≡ b / 2 * 2 + max 0 (b % 2) = omega arith in
    zero-bit_or b ∙ halves ∙ ap (λ t. t * 2 + max 0 (b % 2)) (sym (zero-bit_or (b / 2)))
bit_or_step (suc a) b =
    bit_or-bitwise (suc a) b
    ∙ ap (λ t. t * 2 + max (suc a % 2) (b % 2)) (or_on-bit_or a (suc a / 2) (b / 2) (omega arith))

pow-suc_two : (s : ℕ) → 2 ^ suc s ≡ 2 * 2 ^ s
pow-suc_two s = omega (arith, pow-suc 2 s)

double-bit_or : (a m : ℕ) → bit_or a (2 * m) ≡ bit_or (a / 2) m * 2 + a % 2
double-bit_or a m =
    let half : 2 * m / 2 ≡ m = omega arith in
    omega (arith, bit_or_step a (2 * m), ap (bit_or (a / 2)) half)

-- An "or" with a number shifted past the other's bits is a sum.
pub bit_or_shift : (s a b : ℕ) → a < 2 ^ s → bit_or a (b * 2 ^ s) ≡ a + b * 2 ^ s
bit_or_shift zero a b h =
    let e : a ≡ 0 = omega arith in
    omega (arith, ap (λ t. bit_or t (b * 2 ^ 0)) e, zero-bit_or (b * 2 ^ 0))
bit_or_shift (suc s) a b h =
    let e : b * 2 ^ suc s ≡ 2 * (b * 2 ^ s) =
      omega (arith, ap (λ (t : ℕ). b * t) (pow-suc_two s)) in
    rw e (
      double-bit_or a (b * 2 ^ s)
      ∙ omega (arith, bit_or_shift s (a / 2) b (omega (arith, pow-suc_two s))))

bit_or_comm_upto : (n a b : ℕ) → a ≤ n → b ≤ n → bit_or a b ≡ bit_or b a
bit_or_comm_upto zero zero zero p q = refl
bit_or_comm_upto zero zero (suc b) p q = absurd (omega arith)
bit_or_comm_upto zero (suc a) b p q = absurd (omega arith)
bit_or_comm_upto (suc n) a b p q = omega (
  arith,
  bit_or_step a b,
  bit_or_step b a,
  max_comm (a % 2) (b % 2),
  bit_or_comm_upto n (a / 2) (b / 2) (omega arith) (omega arith),
)

pub bit_or_comm : (a b : ℕ) → bit_or a b ≡ bit_or b a
bit_or_comm a b = bit_or_comm_upto (a + b) a b (omega arith) (omega arith)
