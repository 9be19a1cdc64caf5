-- ===== src/Pb/Varint.antt =====
-- What `varint` writes, and that the reader reads it back.
use native.Mathlib.Bridge.{le_prop}
use native.Mathlib.Nat.{mul-le-mul_right, mod-eq_of_lt}
use native.Mathlib.Omega.{pow_step}
use native.Mathlib.Decide.{dec_le}
use native.Mathlib.Numerals.{add-one}
use mathlib.Core.Logic.{inl, inr, dif_pos, dif_neg}
use mathlib.Core.WellFounded.{Acc}
use devin2proxy.Prelude.{
  ℕ, zero, suc, ◌+◌, ◌*◌, ◌/◌, ◌%◌, ◌^◌, ◌≤◌, ◌<◌, ◌≡◌, refl, sym, ap, ◌∙◌, subst, some, [], ◌∷◌,
  ◌++◌, Bool-cases, append_assoc, arith, Bytes, bit_and, bit_or, ltb, if◌then◌else◌, length,
  get_elem?, drop, lt_wf,
}
use devin2proxy.Prelude.Bits.{bit_and_low, bit_or_high, bit_and_top, bit_or_shift}
use devin2proxy.Pb.Writer.{high_falls, varint_loop, varint}
use devin2proxy.Pb.Reader.{Reader, add_group, advance, varint_byte, varint_from, read_varint}

-- A number below `128 ^ suc more` in base 128, a marked byte for each digit but the top one.
unfoldable pub groups : ℕ → ℕ → Bytes
groups zero v = v ∷ []
groups (suc more) v =
    let upper = groups more (v / 128) in if ltb v 128 then v ∷ [] else (v % 128 + 128) ∷ upper

high_group : (v : ℕ) → bit_or (v % 256) 0x80 ≡ v % 128 + 128
high_group v = rw (bit_or_high (v % 256) (omega arith)) (omega arith)

varint_loop-groups :
    (more : ℕ) (buf : Bytes) (v : ℕ) (acc : Acc ◌<◌ v) (small : v < 128 ^ suc more)
    → varint_loop buf v acc ≡ buf ++ groups more v
unfolding varint_loop groups
varint_loop-groups zero buf v (Acc.intro _ smaller) h = elim (dec_le 0x80 v) [
  | yes more ↦ absurd (omega arith)
  | no last ↦ rw (dif_neg (dec_le 0x80 v) last) (ap (λ t. buf ++ (t ∷ [])) (omega arith))
]
varint_loop-groups (suc k) buf v (Acc.intro _ smaller) h = elim (dec_le 0x80 v) [
  | yes more ↦
      rw (dif_pos (dec_le 0x80 v) le_prop more, high_group v)
        (varint_loop-groups k (buf ++ ((v % 128 + 128) ∷ [])) (v / 128)
            (smaller (v / 128) (high_falls v more)) (omega arith)
          ∙ append_assoc buf ((v % 128 + 128) ∷ []) (groups k (v / 128))
          ∙ ground arith)
  | no last ↦ rw (dif_neg (dec_le 0x80 v) last) (ground arith)
]

-- On every uint64 the writer appends the groups.
pub varint-groups : (buf : Bytes) (v : ℕ) → v < 2 ^ 64 → varint buf v ≡ buf ++ groups 9 v
unfolding varint
varint-groups buf v h = varint_loop-groups 9 buf v (lt_wf.apply v) (omega arith)

-- A byte at the reader's position, and the position behind it.
pub get_elem?-drop :
    (buf : Bytes) (i b : ℕ) (rest : Bytes)
    → drop i buf ≡ b ∷ rest
    → (get_elem? buf i ≡ some b) × (drop (i + 1) buf ≡ rest)
get_elem?-drop [] zero b rest e = absurd (ground arith)
get_elem?-drop [] (suc i) b rest e = absurd (ground arith)
get_elem?-drop (x ∷ xs) zero b rest e = ground arith
get_elem?-drop (x ∷ xs) (suc i) b rest e =
    let (here, after) = get_elem?-drop xs i b rest e in
    (
      here,
      ap (λ n. drop n (x ∷ xs)) (add-one (suc i)) ∙ ap (λ n. drop n xs) (sym (add-one i)) ∙ after,
    )

-- Adding a group to bits below the shift is a sum.
add_group_lem :
    (acc b g shift : ℕ)
    → b < 256
    → b % 128 ≡ g
    → acc < 2 ^ shift
    → acc + g * 2 ^ shift < 2 ^ 64
    → add_group acc b shift ≡ acc + g * 2 ^ shift
add_group_lem acc b g shift hb hg ha fits =
    let small : g * 2 ^ shift % 2 ^ 64 ≡ g * 2 ^ shift = mod-eq_of_lt (omega arith) in
    rw (bit_and_low b hb, hg, small) (bit_or_shift shift acc g ha)

-- In the tenth round only the lowest bit may be set.
top_bits :
    (acc w shift : ℕ) → w < 128 → acc + w * 2 ^ shift < 2 ^ 64 → shift ≡ 63 → bit_and w 0xfe ≡ 0
top_bits acc w shift hw fits e =
    let fits' : acc + w * 2 ^ 63 < 2 ^ 64 = subst (λ s. acc + w * 2 ^ s < 2 ^ 64) e fits in
    bit_and_top w (omega arith) ∙ omega arith

varint_byte_last :
    (r : Reader) (acc shift w : ℕ) (more : Reader → ℕ × Reader)
    → w < 128
    → (shift ≡ 63 → bit_and w 0xfe ≡ 0)
    → varint_byte r acc shift w more ≡ (add_group acc w shift, advance r 1)
unfolding varint_byte
varint_byte_last r acc shift w more hw top = ground (arith, top)

varint_byte_inner :
    (r : Reader) (acc shift b : ℕ) (more : Reader → ℕ × Reader)
    → 128 ≤ b
    → shift + 7 < 64
    → varint_byte r acc shift b more ≡ more (advance r 1)
unfolding varint_byte
varint_byte_inner r acc shift b more hb hs = ground arith

-- One round on a last byte, and on a byte over the group `g` with the top bit set.
last_byte :
    (rounds : ℕ) (r : Reader) (acc shift w : ℕ) (rest : Bytes)
    → drop r.i r.buf ≡ w ∷ rest
    → w < 128
    → acc < 2 ^ shift
    → acc + w * 2 ^ shift < 2 ^ 64
    → varint_from (suc rounds) r acc shift ≡ (acc + w * 2 ^ shift, advance r 1)
unfolding varint_from
last_byte rounds r acc shift w rest e hw ha fits =
    let (here, _) = get_elem?-drop r.buf r.i w rest e in
    let add = add_group_lem acc w w shift (omega arith) (omega arith) ha fits in
    rw (varint_from, here)
      (varint_byte_last r acc shift w
          (λ x. varint_from rounds x (add_group acc w shift) (shift + 7)) hw
          (top_bits acc w shift hw fits)
        ∙ ap (λ t. (t, advance r 1)) add)

inner_byte :
    (rounds : ℕ) (r : Reader) (acc shift g : ℕ) (rest : Bytes)
    → drop r.i r.buf ≡ (g + 128) ∷ rest
    → g < 128
    → acc < 2 ^ shift
    → shift + 7 < 64
    → acc + g * 2 ^ shift < 2 ^ 64
    → varint_from (suc rounds) r acc shift
      ≡ varint_from rounds (advance r 1) (acc + g * 2 ^ shift) (shift + 7)
unfolding varint_from
inner_byte rounds r acc shift g rest e hg ha hs fits =
    let (here, _) = get_elem?-drop r.buf r.i (g + 128) rest e in
    let add = add_group_lem acc (g + 128) g shift (omega arith) (omega arith) ha fits in
    rw (varint_from, here)
      (varint_byte_inner r acc shift (g + 128)
          (λ x. varint_from rounds x (add_group acc (g + 128) shift) (shift + 7)) (omega arith) hs
        ∙ ap (λ t. varint_from rounds (advance r 1) t (shift + 7)) add)

groups-zero : (v : ℕ) → groups 0 v ≡ v ∷ []
unfolding groups
groups-zero v = refl

groups-last : (k v : ℕ) → v < 128 → groups (suc k) v ≡ v ∷ []
unfolding groups
groups-last k v h = ground arith

groups-more : (k v : ℕ) → 128 ≤ v → groups (suc k) v ≡ (v % 128 + 128) ∷ groups k (v / 128)
unfolding groups
groups-more k v h = ground arith

pow-shift : (s : ℕ) → 2 ^ (s + 7) ≡ 128 * 2 ^ s
pow-shift zero = refl
pow-shift (suc s) =
    let place : suc s + 7 ≡ suc (s + 7) = omega arith in
    omega (arith, ap (λ t. 2 ^ t) place, pow_step 2 (s + 7), pow_step 2 s, pow-shift s)

below_shift : (acc g p : ℕ) → acc < p → g < 128 → acc + g * p < 128 * p
below_shift acc g p ha hg =
    let most : g * p ≤ 127 * p = mul-le-mul_right p (omega arith) in omega arith

regroup : (v p : ℕ) → v % 128 * p + v / 128 * (128 * p) ≡ v * p
regroup v p =
    let split : v ≡ v / 128 * 128 + v % 128 = omega arith in omega (arith, ap (λ t. t * p) split)

-- The rounds of the reader over the groups of `v`.
varint_from-groups :
    (k : ℕ) (r : Reader) (acc shift v : ℕ) (rest : Bytes)
    → drop r.i r.buf ≡ groups k v ++ rest
    → v < 128 ^ suc k
    → acc < 2 ^ shift
    → shift + 7 * k < 64
    → acc + v * 2 ^ shift < 2 ^ 64
    → (varint_from (suc k) r acc shift ≡ (acc + v * 2 ^ shift, advance r (length (groups k v))))
      × (drop (r.i + length (groups k v)) r.buf ≡ rest)
varint_from-groups zero r acc shift v rest e hv ha hs fits =
    let e' : groups 0 v ≡ v ∷ [] = groups-zero v in
    rw e' (
      last_byte 0 r acc shift v rest (e ∙ ap (λ t. t ++ rest) e') (omega arith) ha fits,
      (get_elem?-drop r.buf r.i v rest (e ∙ ap (λ t. t ++ rest) e')).1,
    )
varint_from-groups (suc k) r acc shift v rest e hv ha hs fits = elim (Bool-cases (ltb v 128)) [
  | inl last ↦
      let small : v < 128 = ground arith in
      let e' = groups-last k v small in
      rw e' (
        last_byte (suc k) r acc shift v rest (e ∙ ap (λ t. t ++ rest) e') small ha fits,
        (get_elem?-drop r.buf r.i v rest (e ∙ ap (λ t. t ++ rest) e')).1,
      )
  | inr more ↦
      let large : 128 ≤ v = ground arith in
      let e' = groups-more k v large in
      let e'' = e ∙ ap (λ t. t ++ rest) e' in
      let grown = pow-shift shift in
      let parts = regroup v (2 ^ shift) in
      let acc' = acc + v % 128 * 2 ^ shift in
      let under : acc' < 2 ^ (shift + 7) =
        rw grown (below_shift acc (v % 128) (2 ^ shift) ha (omega arith)) in
      let sum : acc' + v / 128 * 2 ^ (shift + 7) ≡ acc + v * 2 ^ shift =
        rw grown (omega (arith, parts)) in
      let round =
        inner_byte (suc k) r acc shift (v % 128) (groups k (v / 128) ++ rest) e'' (omega arith) ha
          (omega arith) (omega arith) in
      let (value, after) =
        varint_from-groups k (advance r 1) acc' (shift + 7) (v / 128) rest
          (get_elem?-drop r.buf r.i (v % 128 + 128) (groups k (v / 128) ++ rest) e'').1
          (omega arith) under (omega arith) (omega (arith, sum)) in
      let place : r.i + 1 + length (groups k (v / 128)) ≡ r.i + suc (length (groups k (v / 128))) =
        omega arith in
      rw e' (
        round
            ∙ value
            ∙ ap (λ t. (t, advance (advance r 1) (length (groups k (v / 128))))) sum
            ∙ ap (λ p. (acc + v * 2 ^ shift, record r { i = p })) place,
        ap (λ p. drop p r.buf) (sym place) ∙ after,
      )
]

-- From a reader that stands at what the writer appends for a number below 2 ^ 64, the number is read
-- back, and the reader stands behind it.
pub read_varint-varint :
    (r : Reader) (v : ℕ) (rest : Bytes)
    → v < 2 ^ 64
    → drop r.i r.buf ≡ varint [] v ++ rest
    → (read_varint r ≡ (v, advance r (length (varint [] v))))
      × (drop (r.i + length (varint [] v)) r.buf ≡ rest)
unfolding read_varint
read_varint-varint r v rest h e =
    let written = varint-groups [] v h in
    let (value, after) =
      varint_from-groups 9 r 0 0 v rest (e ∙ ap (λ t. t ++ rest) written) (omega arith)
        (omega arith) (omega arith) (omega arith) in
    rw written (value ∙ ap (λ t. (t, advance r (length (groups 9 v)))) (omega arith), after)

-- The writer appends.
pub varint-append : (buf : Bytes) (v : ℕ) → v < 2 ^ 64 → varint buf v ≡ buf ++ varint [] v
varint-append buf v h = varint-groups buf v h ∙ ap (λ t. buf ++ t) (sym (varint-groups [] v h))

pub varint_nonempty : (v : ℕ) → v < 2 ^ 64 → 1 ≤ length (varint [] v)
unfolding groups
varint_nonempty v h = rw (varint-groups [] v h) (ground arith)
