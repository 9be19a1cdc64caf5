-- ===== src/Pb/Reader.antt =====
-- internal/pb/pb.go: the reader. `Field`'s third result is the `some` of its answer.
use devin2proxy.Prelude.{
  ℕ, zero, suc, ◌+◌, ◌-◌, ◌*◌, ◌/◌, ◌%◌, ◌^◌, Bool, true, false, not, ◌&&◌, ◌||◌, Option, none,
  some, [], ◌∷◌, Bytes, bit_and, bit_or, ltb, leb, ◌==◌, if◌then◌else◌, length, get_elem?, take,
  drop,
}

-- `out_of_rounds` is no error of the source: the count of `varint_from`'s rounds ran out.
pub data PbError : Type 0 where
  truncated_varint varint_overflow field_zero truncated_fixed64 truncated_fixed32 : PbError
  truncated_bytes past_end unsupported_wire out_of_rounds : PbError

pub record Reader : Type 0 where
  pub buf : Bytes
  pub i : ℕ
  pub err : Option PbError

unfoldable pub new_reader : Bytes → Reader
new_reader b = record { buf = b; i = 0; err = none }

abbrev pub is_some : Option PbError → Bool
is_some none = false
is_some (some e) = true

abbrev pub failed : Reader → Bool
failed r = is_some r.err

-- The first error is kept.
abbrev pub first_error : Option PbError → PbError → Option PbError
first_error none e = some e
first_error (some e) e' = some e

abbrev pub fail : Reader → PbError → Reader
fail r e = record r { err = first_error r.err e }

unfoldable pub remaining : Reader → ℕ
remaining r = if failed r || ltb (length r.buf) r.i then 0 else length r.buf - r.i

-- `v |= uint64(b&0x7f) << shift`
abbrev pub add_group : ℕ → ℕ → ℕ → ℕ
add_group v b shift = bit_or v (bit_and b 0x7f * 2 ^ shift % 2 ^ 64)

abbrev pub advance : Reader → ℕ → Reader
advance r n = record r { i = r.i + n }

-- One round of the loop with the byte `b`, and `more` for the rounds behind it.
unfoldable pub varint_byte : Reader → ℕ → ℕ → ℕ → (Reader → ℕ × Reader) → ℕ × Reader
varint_byte r v shift b more =
    let r' = advance r 1 in
    let rest = more r' in
    if shift == 63 && not (bit_and b 0xfe == 0)
    then (0, fail r' varint_overflow)
    else if ltb b 0x80
    then (add_group v b shift, r')
    else if leb 64 (shift + 7)
    then (0, fail r' varint_overflow)
    else rest

-- The loop stops by itself at a shift of 64, in its tenth round at the latest.
unfoldable pub varint_from : ℕ → Reader → ℕ → ℕ → ℕ × Reader
unfolding varint_byte
varint_from zero r v shift = (0, fail r out_of_rounds)
varint_from (suc rounds) r v shift = elim (get_elem? r.buf r.i) [
  | none ↦ (0, fail r truncated_varint)
  | some b ↦ varint_byte r v shift b (λ r'. varint_from rounds r' (add_group v b shift) (shift + 7))
]

unfoldable pub read_varint : Reader → ℕ × Reader
read_varint r = varint_from 10 r 0 0

unfoldable pub field_of_tag : ℕ × Reader → Option (ℕ × ℕ) × Reader
field_of_tag (tag, r) =
    if failed r
    then (none, r)
    else if tag / 8 == 0
    then (none, fail r field_zero)
    else (some (tag / 8, tag % 8), r)

unfoldable pub read_field : Reader → Option (ℕ × ℕ) × Reader
read_field r =
    if failed r || leb (length r.buf) r.i then (none, r) else field_of_tag (read_varint r)

unfoldable pub read_bool : Reader → Bool × Reader
read_bool r = let (v, r') = read_varint r in (not (v == 0), r')

-- `binary.LittleEndian.Uint64` and `Uint32`.
unfoldable pub from_little_endian : Bytes → ℕ
from_little_endian [] = 0
from_little_endian (b ∷ s) = b + 256 * from_little_endian s

unfoldable pub read_double : Reader → ℕ × Reader
read_double r =
    if ltb (length r.buf) (r.i + 8)
    then (0, fail r truncated_fixed64)
    else (from_little_endian (take 8 (drop r.i r.buf)), advance r 8)

unfoldable pub read_fixed32 : Reader → ℕ × Reader
read_fixed32 r =
    if ltb (length r.buf) (r.i + 4)
    then (0, fail r truncated_fixed32)
    else (from_little_endian (take 4 (drop r.i r.buf)), advance r 4)

-- `nil` is the empty slice.
unfoldable pub bytes_of_length : ℕ × Reader → Bytes × Reader
bytes_of_length (n, r) =
    if failed r
    then ([], r)
    else if ltb (length r.buf - r.i) n
    then ([], fail r truncated_bytes)
    else (take n (drop r.i r.buf), advance r n)

unfoldable pub read_bytes : Reader → Bytes × Reader
read_bytes r = bytes_of_length (read_varint r)

-- The check behind `Skip`'s switch.
abbrev pub in_bounds : Reader → Reader
in_bounds r = if not (failed r) && ltb (length r.buf) r.i then fail r past_end else r

unfoldable pub skip_of_length : ℕ × Reader → Reader
skip_of_length (n, r) =
    if failed r
    then r
    else if ltb (length r.buf - r.i) n
    then fail r past_end
    else in_bounds (advance r n)

unfoldable pub skip : Reader → ℕ → Reader
skip r wire =
    if wire == 0
    then in_bounds (read_varint r).1
    else if wire == 1
    then in_bounds (advance r 8)
    else if wire == 2
    then skip_of_length (read_varint r)
    else if wire == 5
    then in_bounds (advance r 4)
    else fail r unsupported_wire
