-- ===== src/Client/Stream.antt =====
-- internal/devin/client.go: `Stream`, over the bytes that its body will yield. `encoding/json` of an
-- end-of-stream payload is `parse_end`: `none` where it fails, else the error that it holds. A text in
-- an error is left out, but not what it wraps.
use devin2proxy.Prelude.{
  ℕ, zero, suc, ◌-◌, ◌*◌, ◌^◌, Bool, true, false, not, Option, none, some, ◌⊎◌, inl, inr, [], ◌∷◌,
  ltb, ◌==◌, if◌then◌else◌, length, take, drop, Bytes, bit_and,
}
use devin2proxy.Errors.{GoError, ConnectError}
use devin2proxy.Connect.{frame_data, frame_end_stream, from_big_endian}
use devin2proxy.Wire.Response.{GetChatMessageResponse, decode_get_chat_message_response}

abbrev pub max_envelope_bytes : ℕ
max_envelope_bytes = 32 * 2 ^ 20

-- What is still to be read, and how it ends: `none` for EOF.
pub record Body : Type 0 where
  pub bytes : Bytes
  pub ending : Option GoError

abbrev pub ParseEnd : Type 0
ParseEnd = Bytes → Option (Option ConnectError)

abbrev pub Received : Type 0
Received = GetChatMessageResponse ⊎ GoError

abbrev pub plain_error : GoError
plain_error = record {
  canceled = false;
  deadline_exceeded = false;
  os_deadline_exceeded = false;
  eof = false;
  http = none;
  connect = none;
  egress = none;
}

-- An error that `errors.Is` finds `io.EOF` in.
abbrev pub eof_error : GoError
eof_error = record plain_error { eof = true }

abbrev pub connect_failure : ConnectError → GoError
connect_failure e = record plain_error { connect = some e }

-- The error of `io.ReadFull` when `got` bytes came and more were asked for: `io.EOF` if there were
-- none, `io.ErrUnexpectedEOF` if there were some, else the error of the body.
abbrev pub short_read : ℕ → Option GoError → GoError
short_read got none = if got == 0 then eof_error else plain_error
short_read got (some e) = e

-- The end-of-stream frame.
unfoldable pub end_stream : ParseEnd → Bytes → GoError
end_stream parse_end [] = eof_error
end_stream parse_end (b ∷ payload) = elim (parse_end (b ∷ payload)) [
  | none ↦ plain_error
  | some none ↦ eof_error
  | some (some e) ↦ connect_failure e
]

unfoldable pub read_response : Bytes → Received
read_response payload =
    let r = decode_get_chat_message_response payload in
    if r.truncated then inr plain_error else inl r

-- `recv`, with `rounds` envelopes left to skip; each has five bytes at least.
unfoldable pub recv_loop : ParseEnd → ℕ → Bytes → Option GoError → Received × Body
unfolding end_stream read_response from_big_endian
recv_loop parse_end zero bytes ending = (inr plain_error, record { bytes = bytes; ending = ending })
recv_loop parse_end (suc rounds) (flag ∷ b1 ∷ b2 ∷ b3 ∷ b4 ∷ rest) ending =
    let n = from_big_endian b1 b2 b3 b4 in
    let payload = take n rest in
    let after : Body = record { bytes = drop n rest; ending = ending } in
    let skip = recv_loop parse_end rounds (drop n rest) ending in
    if ltb max_envelope_bytes n
    then (inr plain_error, record { bytes = rest; ending = ending })
    else if ltb (length rest) n
    then (inr (short_read (length rest) ending), record { bytes = []; ending = ending })
    else if not (bit_and flag frame_end_stream == 0)
    then (inr (end_stream parse_end payload), after)
    else if not (flag == frame_data)
    then skip
    else (read_response payload, after)
recv_loop parse_end (suc rounds) bytes ending =
    (inr (short_read (length bytes) ending), record { bytes = []; ending = ending })

abbrev pub recv_body : ParseEnd → Body → Received × Body
recv_body parse_end b = recv_loop parse_end (suc (length b.bytes)) b.bytes b.ending

pub record Stream : Type 0 where
  pub body : Body
  pub held : Option Received
  pub closed : Bool

-- `Recv`
unfoldable pub recv : ParseEnd → Stream → Received × Stream
unfolding recv_loop
recv parse_end s = elim s.held [
  | some r ↦ (r, record s { held = none })
  | none ↦ let (r, b) = recv_body parse_end s.body in (r, record s { body = b })
]

abbrev pub error_of : Received → Option GoError
error_of (inl r) = none
error_of (inr e) = some e

-- `Peek`
unfoldable pub peek : ParseEnd → Stream → Option GoError × Stream
unfolding recv_loop
peek parse_end s = elim s.held [
  | some r ↦ (error_of r, s)
  | none ↦
      let (r, b) = recv_body parse_end s.body in (error_of r, record s { body = b; held = some r })
]

-- `Close`, for the slots that are taken.
unfoldable pub close : Stream → ℕ → Stream × ℕ
close s taken = if s.closed then (s, taken) else (record s { closed = true }, taken - 1)
