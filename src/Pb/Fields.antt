-- ===== src/Pb/Fields.antt =====
-- Fields: what each writer appends, the reader takes off again.
use devin2proxy.Prelude.{
  Option-cases, inl, inr, ℕ, zero, suc, ◌+◌, ◌-◌, ◌*◌, ◌/◌, ◌%◌, ◌^◌, ◌≤◌, ◌<◌, ◌≡◌, refl, sym, ap,
  ◌∙◌, subst, none, some, [], ◌∷◌, ◌++◌, append_assoc, arith, Bytes, bit_or, length, length-append,
  take, drop,
}
use native.Mathlib.Nat.{suc-add, mod-eq_of_lt}
use native.Mathlib.Omega.{pow_step}
use devin2proxy.Prelude.Bits.{bit_or_shift, bit_or_comm}
use devin2proxy.Pb.Writer.{varint, tag, write_varint, write_raw_bytes, little_endian}
use devin2proxy.Pb.Reader.{
  Reader, advance, read_varint, read_field, field_of_tag, read_bytes, bytes_of_length, read_double,
  from_little_endian,
}
use devin2proxy.Pb.Varint.{read_varint-varint, varint-append, varint_nonempty}

pub length-drop : (i : ℕ) (b : Bytes) → length (drop i b) ≡ length b - i
length-drop zero b = omega arith
length-drop (suc i) [] = omega arith
length-drop (suc i) (x ∷ b) = omega (arith, length-drop i b)

drop_nil : (n : ℕ) → drop {A = ℕ} n [] ≡ []
drop_nil zero = refl
drop_nil (suc n) = refl

drop_add : (i n : ℕ) (b : Bytes) → drop (i + n) b ≡ drop n (drop i b)
drop_add zero n b = ap (λ t. drop t b) (omega arith)
drop_add (suc i) n [] = drop_nil (suc i + n) ∙ sym (drop_nil n)
drop_add (suc i) n (x ∷ b) = ap (λ t. drop t (x ∷ b)) (suc-add i n) ∙ drop_add i n b

pub take_append : (a b : Bytes) → take (length a) (a ++ b) ≡ a
take_append [] b = refl
take_append (x ∷ a) b = ap (λ t. x ∷ t) (take_append a b)

pub drop_append : (a b : Bytes) → drop (length a) (a ++ b) ≡ b
drop_append [] b = refl
drop_append (x ∷ a) b = drop_append a b

tag-varint :
    (buf : Bytes) (field wire : ℕ)
    → field < 2 ^ 29
    → wire < 8
    → tag buf field wire ≡ varint buf (field * 8 + wire)
unfolding tag
tag-varint buf field wire hf hw =
    let small : field * 8 % 2 ^ 64 ≡ field * 8 = mod-eq_of_lt (omega arith) in
    ap (varint buf) (
      ap (λ t. bit_or t wire) small
      ∙ bit_or_comm (field * 8) wire
      ∙ bit_or_shift 3 wire field hw
      ∙ omega arith)

field_of_tag_lem :
    (t : ℕ) (r : Reader) → r.err ≡ none → 1 ≤ t / 8 → field_of_tag (t, r) ≡ (some (t / 8, t % 8), r)
unfolding field_of_tag
field_of_tag_lem t r he h = rw he (ground arith)

nonempty-drop : (i : ℕ) (b c : Bytes) → drop i b ≡ c → 1 ≤ length c → i < length b
nonempty-drop i b c e h = omega (arith, length-drop i b, ap length e)

read_field_inside :
    (r : Reader) → r.err ≡ none → r.i < length r.buf → read_field r ≡ field_of_tag (read_varint r)
unfolding read_field
read_field_inside r he h = rw he (ground arith)

-- A tag is read back as the field and the wire type.
pub read_field-tag :
    (r : Reader) (field wire : ℕ) (rest : Bytes)
    → r.err ≡ none
    → 1 ≤ field
    → field < 2 ^ 29
    → wire < 8
    → drop r.i r.buf ≡ tag [] field wire ++ rest
    → (read_field r ≡ (some (field, wire), advance r (length (tag [] field wire))))
      × (drop (r.i + length (tag [] field wire)) r.buf ≡ rest)
read_field-tag r field wire rest he h0 hf hw e =
    let written = tag-varint [] field wire hf hw in
    let (value, after) =
      read_varint-varint r (field * 8 + wire) rest (omega arith)
        (e ∙ ap (λ t. t ++ rest) written) in
    let inside : r.i < length r.buf = nonempty-drop r.i r.buf _ e (
      omega (
        arith,
        length-append (tag [] field wire) rest,
        ap length written,
        varint_nonempty (field * 8 + wire) (omega arith),
      )) in
    let number : (field * 8 + wire) / 8 ≡ field = omega arith in
    let kind : (field * 8 + wire) % 8 ≡ wire = omega arith in
    rw written (
      read_field_inside r he inside
          ∙ ap field_of_tag value
          ∙ field_of_tag_lem (field * 8 + wire) (advance r (length (varint [] (field * 8 + wire))))
              he (omega arith)
          ∙ (λ j. (some (number j, kind j), advance r (length (varint [] (field * 8 + wire))))),
      after,
    )

pub tag-append :
    (buf : Bytes) (field wire : ℕ)
    → field < 2 ^ 29
    → wire < 8
    → tag buf field wire ≡ buf ++ tag [] field wire
tag-append buf field wire hf hw =
    tag-varint buf field wire hf hw
    ∙ varint-append buf (field * 8 + wire) (omega arith)
    ∙ ap (λ t. buf ++ t) (sym (tag-varint [] field wire hf hw))

pub write_varint-append :
    (buf : Bytes) (field v : ℕ)
    → field < 2 ^ 29
    → v < 2 ^ 64
    → write_varint buf field v ≡ buf ++ (tag [] field 0 ++ varint [] v)
unfolding write_varint
write_varint-append buf field v hf hv =
    varint-append (tag buf field 0) v hv
    ∙ ap (λ t. t ++ varint [] v) (tag-append buf field 0 hf (omega arith))
    ∙ append_assoc buf (tag [] field 0) (varint [] v)

pub write_raw_bytes-append :
    (buf : Bytes) (field : ℕ) (b : Bytes)
    → field < 2 ^ 29
    → length b < 2 ^ 64
    → write_raw_bytes buf field b ≡ buf ++ (tag [] field 2 ++ (varint [] (length b) ++ b))
unfolding write_raw_bytes
write_raw_bytes-append buf field b hf hb =
    ap (λ t. t ++ b)
      (varint-append (tag buf field 2) (length b) hb
        ∙ ap (λ t. t ++ varint [] (length b)) (tag-append buf field 2 hf (omega arith)))
    ∙ append_assoc (buf ++ tag [] field 2) (varint [] (length b)) b
    ∙ append_assoc buf (tag [] field 2) (varint [] (length b) ++ b)

bytes_of_length_lem :
    (r : Reader) (n : ℕ)
    → r.err ≡ none
    → n ≤ length r.buf - r.i
    → bytes_of_length (n, r) ≡ (take n (drop r.i r.buf), advance r n)
unfolding bytes_of_length
bytes_of_length_lem r n he h = rw he (ground arith)

-- A length and that many bytes are read back as the bytes.
pub read_bytes_lem :
    (r : Reader) (b rest : Bytes)
    → r.err ≡ none
    → length b < 2 ^ 64
    → drop r.i r.buf ≡ (varint [] (length b) ++ b) ++ rest
    → (read_bytes r ≡ (b, advance r (length (varint [] (length b) ++ b))))
      × (drop (r.i + length (varint [] (length b) ++ b)) r.buf ≡ rest)
unfolding read_bytes
read_bytes_lem r b rest he hb e =
    let size = varint [] (length b) in
    let (value, after) =
      read_varint-varint r (length b) (b ++ rest) hb (e ∙ append_assoc size b rest) in
    let end : r.i + length size + length b ≡ r.i + length (size ++ b) =
      omega (arith, length-append size b) in
    let r' = advance r (length size) in
    let behind : drop (r.i + length size + length b) r.buf ≡ rest =
      drop_add (r.i + length size) (length b) r.buf
      ∙ ap (drop (length b)) after
      ∙ drop_append b rest in
    let fits : length b ≤ length r.buf - (r.i + length size) =
      omega (arith, length-drop (r.i + length size) r.buf, ap length after, length-append b rest) in
    (
      ap bytes_of_length value
          ∙ bytes_of_length_lem r' (length b) he fits
          ∙ ap (λ t. (t, advance r' (length b))) (ap (take (length b)) after ∙ take_append b rest)
          ∙ ap (λ p. (b, record r { i = p })) end,
      ap (λ p. drop p r.buf) (sym end) ∙ behind,
    )

length-little_endian : (n v : ℕ) → length (little_endian n v) ≡ n
unfolding little_endian
length-little_endian zero v = refl
length-little_endian (suc n) v = ap suc (length-little_endian n (v / 256))

from_little_endian-little_endian :
    (n v : ℕ) → v < 256 ^ n → from_little_endian (little_endian n v) ≡ v
unfolding from_little_endian little_endian
from_little_endian-little_endian zero v h = omega arith
from_little_endian-little_endian (suc n) v h =
    omega (arith, from_little_endian-little_endian n (v / 256) (omega (arith, pow_step 256 n)))

read_double_inside :
    (r : Reader)
    → r.i + 8 ≤ length r.buf
    → read_double r ≡ (from_little_endian (take 8 (drop r.i r.buf)), advance r 8)
unfolding read_double
read_double_inside r h = ground arith

-- Eight bytes are read back as the bits of the float.
pub read_double_lem :
    (r : Reader) (bits : ℕ) (rest : Bytes)
    → bits < 2 ^ 64
    → drop r.i r.buf ≡ little_endian 8 bits ++ rest
    → (read_double r ≡ (bits, advance r (length (little_endian 8 bits))))
      × (drop (r.i + length (little_endian 8 bits)) r.buf ≡ rest)
read_double_lem r bits rest h e =
    let size = length-little_endian 8 bits in
    let fits : r.i + 8 ≤ length r.buf = omega (
      arith,
      size,
      length-drop r.i r.buf,
      ap length e,
      length-append (little_endian 8 bits) rest,
    ) in
    let taken : take 8 (drop r.i r.buf) ≡ little_endian 8 bits =
      ap (take 8) e
      ∙ subst (λ n. take n (little_endian 8 bits ++ rest) ≡ little_endian 8 bits) size
          (take_append (little_endian 8 bits) rest) in
    (
      read_double_inside r fits
          ∙ ap (λ t. (from_little_endian t, advance r 8)) taken
          ∙ ap (λ t. (t, advance r 8)) (from_little_endian-little_endian 8 bits h)
          ∙ ap (λ n. (bits, advance r n)) (sym size),
      drop_add r.i (length (little_endian 8 bits)) r.buf
          ∙ ap (drop (length (little_endian 8 bits))) e
          ∙ drop_append (little_endian 8 bits) rest,
    )

-- At the end of the bytes there is no field.
pub read_field_end : (r : Reader) → drop r.i r.buf ≡ [] → read_field r ≡ (none, r)
unfolding read_field
read_field_end r e =
    let past : length r.buf ≤ r.i = omega (arith, length-drop r.i r.buf, ap length e) in
    elim (Option-cases r.err) [ inl clean ↦ rw clean (ground arith) | inr (x, bad) ↦ rw bad refl ]

pub tag_nonempty : (field wire : ℕ) → field < 2 ^ 29 → wire < 8 → 1 ≤ length (tag [] field wire)
tag_nonempty field wire hf hw =
    rw (tag-varint [] field wire hf hw) (varint_nonempty (field * 8 + wire) (omega arith))
