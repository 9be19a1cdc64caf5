-- ===== src/Connect.antt =====
-- internal/devin/connect.go: the envelopes of a Connect stream.
pub mod Frames
mod Examples
use devin2proxy.Prelude.{
  ℕ, zero, suc, ◌+◌, ◌-◌, ◌*◌, ◌/◌, ◌%◌, ◌^◌, Option, none, some, List, [], ◌∷◌, ◌++◌, Bytes, ltb,
  if◌then◌else◌, length, take, drop,
}

abbrev pub frame_data : ℕ
frame_data = 0x00

abbrev pub frame_end_stream : ℕ
frame_end_stream = 0x02

pub record Frame : Type 0 where
  pub flag : ℕ
  pub payload : Bytes

-- `out_of_rounds` is no error of the source: the count of `parse_loop`'s rounds ran out.
pub data FrameError : Type 0 where
  truncated_header : ℕ → FrameError
  truncated_payload : ℕ → ℕ → FrameError
  out_of_rounds : FrameError

-- `binary.BigEndian.PutUint32` and `Uint32`.
unfoldable pub big_endian : ℕ → Bytes
big_endian n = (n / 2 ^ 24 % 256) ∷ (n / 2 ^ 16 % 256) ∷ (n / 2 ^ 8 % 256) ∷ (n % 256) ∷ []

unfoldable pub from_big_endian : ℕ → ℕ → ℕ → ℕ → ℕ
from_big_endian b1 b2 b3 b4 = b1 * 2 ^ 24 + b2 * 2 ^ 16 + b3 * 2 ^ 8 + b4

-- A round takes five bytes at least. An `int` has 64 bits, so that the length is never negative.
unfoldable pub parse_loop : ℕ → List Frame → Bytes → List Frame × Option FrameError
parse_loop rounds out [] = (out, none)
parse_loop zero out (b ∷ bs) = (out, some FrameError.out_of_rounds)
parse_loop (suc rounds) out (flag ∷ b1 ∷ b2 ∷ b3 ∷ b4 ∷ body) =
    let n = from_big_endian b1 b2 b3 b4 in
    let rest =
      parse_loop rounds (out ++ (record { flag = flag; payload = take n body } ∷ []))
        (drop n body) in
    if ltb (5 + length body) (5 + n)
    then (out, some (FrameError.truncated_payload n (length body)))
    else rest
parse_loop (suc rounds) out (b ∷ bs) = (out, some (FrameError.truncated_header (length (b ∷ bs))))

unfoldable pub parse_frames : Bytes → List Frame × Option FrameError
parse_frames b = parse_loop (length b) [] b

-- `uint32(len(payload))`
unfoldable pub encode_frame : ℕ → Bytes → Bytes
encode_frame flag payload = flag ∷ (big_endian (length payload % 2 ^ 32) ++ payload)
