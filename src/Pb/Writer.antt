-- ===== src/Pb/Writer.antt =====
-- internal/pb/pb.go: the writer. A `Writer` is its buffer.
use devin2proxy.Prelude.{
  ℕ, zero, suc, ◌*◌, ◌/◌, ◌%◌, ◌^◌, ◌≤◌, ◌<◌, Bool, List, [], ◌∷◌, ◌++◌, arith, Bytes, bit_or, ◌==◌,
  if◌then◌else◌, length, lt_wf,
}
use mathlib.Core.Logic.{dite}
use mathlib.Core.WellFounded.{Acc}
use native.Mathlib.Decide.{dec_le}

abbrev pub wire_varint : ℕ
wire_varint = 0

abbrev pub wire_fixed64 : ℕ
wire_fixed64 = 1

abbrev pub wire_bytes : ℕ
wire_bytes = 2

abbrev pub wire_fixed32 : ℕ
wire_fixed32 = 5

pub high_falls : (v : ℕ) → 0x80 ≤ v → v / 128 < v
high_falls v more = omega arith

-- `byte(v)` is `v % 256` and `v >>= 7` is `v / 128`, which falls while the loop goes on.
unfoldable pub varint_loop : Bytes → (v : ℕ) → Acc ◌<◌ v → Bytes
varint_loop buf v (Acc.intro _ smaller) =
    dite (dec_le 0x80 v)
      (λ more.
        varint_loop (buf ++ (bit_or (v % 256) 0x80 ∷ [])) (v / 128)
          (smaller (v / 128) (high_falls v more)))
      (λ _. buf ++ (v % 256 ∷ []))

unfoldable pub varint : Bytes → ℕ → Bytes
varint buf v = varint_loop buf v (lt_wf.apply v)

-- `uint64(field)<<3 | uint64(wire)`
unfoldable pub tag : Bytes → ℕ → ℕ → Bytes
tag buf field wire = varint buf (bit_or (field * 8 % 2 ^ 64) wire)

unfoldable pub write_varint : Bytes → ℕ → ℕ → Bytes
write_varint buf field v = varint (tag buf field wire_varint) v

-- `Uint64`, `Int64` and `Enum`, which differ in the type of `v` only.
unfoldable pub write_uint64 : Bytes → ℕ → ℕ → Bytes
write_uint64 buf field v = if v == 0 then buf else write_varint buf field v

unfoldable pub write_bool : Bytes → ℕ → Bool → Bytes
write_bool buf field v = if v then write_varint buf field 1 else buf

-- `binary.LittleEndian.PutUint64` and `PutUint32`: the `n` lowest bytes.
unfoldable pub little_endian : ℕ → ℕ → Bytes
little_endian zero v = []
little_endian (suc n) v = (v % 256) ∷ little_endian n (v / 256)

-- `v == 0` holds of both zeros, whose bits differ in the sign.
unfoldable pub write_double : Bytes → ℕ → ℕ → Bytes
write_double buf field bits =
    if bits % 2 ^ 63 == 0 then buf else tag buf field wire_fixed64 ++ little_endian 8 bits

unfoldable pub write_float32 : Bytes → ℕ → ℕ → Bytes
write_float32 buf field bits = tag buf field wire_fixed32 ++ little_endian 4 bits

unfoldable pub write_raw_bytes : Bytes → ℕ → Bytes → Bytes
write_raw_bytes buf field b = varint (tag buf field wire_bytes) (length b) ++ b

unfoldable pub write_string : Bytes → ℕ → Bytes → Bytes
write_string buf field [] = buf
write_string buf field (c ∷ s) = write_raw_bytes buf field (c ∷ s)

-- The loop of `PackedVarints` over its sub-writer.
unfoldable pub varints : Bytes → List ℕ → Bytes
varints buf [] = buf
varints buf (v ∷ vals) = varints (varint buf v) vals

unfoldable pub write_packed_varints : Bytes → ℕ → List ℕ → Bytes
write_packed_varints buf field [] = buf
write_packed_varints buf field (v ∷ vals) = write_raw_bytes buf field (varints [] (v ∷ vals))

unfoldable pub write_message : Bytes → ℕ → (Bytes → Bytes) → Bytes
write_message buf field fn = write_raw_bytes buf field (fn [])
