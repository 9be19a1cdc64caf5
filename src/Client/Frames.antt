-- ===== src/Client/Frames.antt =====
-- internal/devin/client.go: what a stream hands out of the envelopes that it is sent.
use devin2proxy.Prelude.{
  ℕ, zero, suc, ◌-◌, ◌%◌, ◌^◌, ◌≤◌, ◌<◌, ◌≡◌, refl, sym, ap, ◌∙◌, Bool, true, false, not, Option,
  none, some, inr, List, [], ◌∷◌, ◌++◌, ◌==◌, if◌then◌else◌, length, take, drop, Bytes, bit_and,
  All, arith, take-append, drop-append, length-append, append_assoc,
}
use devin2proxy.Errors.{GoError}
use devin2proxy.Connect.{Frame, frame_data, frame_end_stream, big_endian, encode_frame}
use devin2proxy.Connect.Frames.{header_number, from_big_endian-big_endian}
use devin2proxy.Client.Stream.{
  Body, ParseEnd, Received, eof_error, end_stream, read_response, recv_loop, Stream, recv, peek,
  error_of, max_envelope_bytes,
}

-- A header whose envelope does not begin.
cut_round :
    (parse_end : ParseEnd) (rounds flag n : ℕ)
    → 0 < n
    → n ≤ max_envelope_bytes
    → recv_loop parse_end (suc rounds) (flag ∷ big_endian n) none
      ≡ (inr eof_error, record { bytes = []; ending = none })
unfolding recv_loop big_endian
cut_round parse_end rounds flag n some_bytes small =
    let e : header_number n ≡ n = from_big_endian-big_endian n (omega arith) in rw e (ground arith)

-- What the two methods do, seen from the frame that is held.
abbrev PeekLaws : ParseEnd → Stream → Type 0
PeekLaws parse_end s =
    ((recv parse_end (peek parse_end s).1).0 ≡ (recv parse_end s).0)
    × ((recv parse_end (peek parse_end s).1).1 ≡ (recv parse_end s).1)
    × ((peek parse_end s).0 ≡ error_of (recv parse_end s).0)
    × (peek parse_end (peek parse_end s).1 ≡ peek parse_end s)

peek_laws :
    (parse_end : ParseEnd) (b : Body) (held : Option Received) (closed : Bool)
    → PeekLaws parse_end (record { body = b; held = held; closed = closed })
unfolding recv peek
peek_laws parse_end b none closed = (refl, refl, refl, refl)
peek_laws parse_end b (some r) closed = (refl, refl, refl, refl)

-- `Peek` reports the error that `Recv` gives next, and `Recv` then gives what it would have given
-- without it, however often the stream was peeked at.
pub recv-peek :
    (parse_end : ParseEnd) (s : Stream)
    → ((recv parse_end (peek parse_end s).1).0 ≡ (recv parse_end s).0)
      × ((recv parse_end (peek parse_end s).1).1 ≡ (recv parse_end s).1)
      × ((peek parse_end s).0 ≡ error_of (recv parse_end s).0)
      × (peek parse_end (peek parse_end s).1 ≡ peek parse_end s)
recv-peek parse_end s = peek_laws parse_end s.body s.held s.closed

module _ (parse_end : ParseEnd) (rounds : ℕ) (ending : Option GoError) where
  -- A whole envelope of a plausible length.
  abbrev on_envelope : ℕ → Bytes → Bytes → Received × Body
  on_envelope flag payload rest =
      if not (bit_and flag frame_end_stream == 0)
      then (inr (end_stream parse_end payload), record { bytes = rest; ending = ending })
      else if not (flag == frame_data)
      then recv_loop parse_end rounds rest ending
      else (read_response payload, record { bytes = rest; ending = ending })

  recv_round :
      (flag n : ℕ) (body : Bytes)
      → n ≤ length body
      → n ≤ max_envelope_bytes
      → header_number n ≡ n
      → recv_loop parse_end (suc rounds) (flag ∷ (big_endian n ++ body)) ending
        ≡ on_envelope flag (take n body) (drop n body)
  unfolding recv_loop big_endian
  recv_round flag n body h small e = rw e (ground arith)

  recv_loop-encode_frame :
      (flag : ℕ) (payload rest : Bytes)
      → length payload ≤ max_envelope_bytes
      → recv_loop parse_end (suc rounds) (encode_frame flag payload ++ rest) ending
        ≡ on_envelope flag payload rest
  unfolding encode_frame
  recv_loop-encode_frame flag payload rest small =
      let n = length payload in
      let size : n % 2 ^ 32 ≡ n = omega arith in
      let fits : n ≤ length (payload ++ rest) = omega (arith, length-append payload rest) in
      ap (λ b. recv_loop parse_end (suc rounds) (flag ∷ b) ending)
        (append_assoc (big_endian (n % 2 ^ 32)) payload rest
          ∙ ap (λ m. big_endian m ++ (payload ++ rest)) size)
      ∙ recv_round flag n (payload ++ rest) fits small (from_big_endian-big_endian n (omega arith))
      ∙ (λ i. on_envelope flag (take-append payload rest i) (drop-append payload rest i))

-- An envelope that `recv` passes over.
pub record IsSkipped (f : Frame) : Type 0 where
  pub small : length f.payload ≤ max_envelope_bytes
  pub goes_on : (bit_and f.flag frame_end_stream == 0) ≡ true
  pub no_data : (f.flag == frame_data) ≡ false

abbrev pub before : List Frame → Bytes → Bytes
before [] rest = rest
before (f ∷ fs) rest = encode_frame f.flag f.payload ++ before fs rest

length-before : (fs : List Frame) (rest : Bytes) → length fs ≤ length (before fs rest)
length-before [] rest = omega arith
length-before (f ∷ fs) rest = omega (
  arith,
  length-before fs rest,
  length-append (encode_frame f.flag f.payload) (before fs rest),
  length_frame f,
)
  where
    length_frame : (f : Frame) → 1 ≤ length (encode_frame f.flag f.payload)
    length_frame f = unfold encode_frame in omega arith

recv_loop-skips :
    (parse_end : ParseEnd) (fs : List Frame) (rounds : ℕ) (rest : Bytes) (ending : Option GoError)
    → All IsSkipped fs
    → length fs ≤ rounds
    → recv_loop parse_end rounds (before fs rest) ending
      ≡ recv_loop parse_end (rounds - length fs) rest ending
recv_loop-skips parse_end [] rounds rest ending h enough =
    ap (λ n. recv_loop parse_end n rest ending) (omega arith)
recv_loop-skips parse_end (f ∷ fs) zero rest ending h enough = absurd (omega arith)
recv_loop-skips parse_end (f ∷ fs) (suc rounds) rest ending h enough =
    let v = h.0 in
    let fewer : suc rounds - suc (length fs) ≡ rounds - length fs = omega arith in
    recv_loop-encode_frame parse_end rounds ending f.flag f.payload (before fs rest) v.small
    ∙ ap
        (λ b.
          if not b
          then (
            inr (end_stream parse_end f.payload),
            record { bytes = before fs rest; ending = ending },
          )
          else if not (f.flag == frame_data)
          then recv_loop parse_end rounds (before fs rest) ending
          else (read_response f.payload, record { bytes = before fs rest; ending = ending }))
        v.goes_on
    ∙ ap
        (λ b.
          if not b
          then recv_loop parse_end rounds (before fs rest) ending
          else (read_response f.payload, record { bytes = before fs rest; ending = ending }))
        v.no_data
    ∙ recv_loop-skips parse_end fs rounds rest ending h.1 (omega arith)
    ∙ ap (λ n. recv_loop parse_end n rest ending) (sym fewer)

-- A stream that holds nothing and will read `bytes`.
abbrev pub reading : Option GoError → Bool → Bytes → Stream
reading ending closed bytes = record {
  body = record { bytes = bytes; ending = ending };
  held = none;
  closed = closed;
}

module _ (parse_end : ParseEnd) (fs : List Frame) (ending : Option GoError) (closed : Bool) where
  skipped :
      (rest : Bytes)
      → All IsSkipped fs
      → (left : ℕ) × (recv parse_end (reading ending closed (before fs rest)) ≡ (
        (recv_loop parse_end (suc left) rest ending).0,
        record (reading ending closed (before fs rest)) {
          body = (recv_loop parse_end (suc left) rest ending).1;
        },
      ))
  unfolding recv
  skipped rest h =
      let size = length (before fs rest) in
      let left = size - length fs in
      let one_more : suc size - length fs ≡ suc left = omega (arith, length-before fs rest) in
      (
        left,
        ap (λ r. (r.0, record (reading ending closed (before fs rest)) { body = r.1 }))
            (recv_loop-skips parse_end fs (suc size) rest ending h
                (omega (arith, length-before fs rest))
              ∙ ap (λ n. recv_loop parse_end n rest ending) one_more),
      )

  -- Envelopes that are neither data nor the end are passed over, and the data envelope behind them is
  -- handed out decoded, or as an error if it is cut short inside; what follows it stays to be read.
  pub recv-data :
      (payload rest : Bytes)
      → All IsSkipped fs
      → length payload ≤ max_envelope_bytes
      → recv parse_end (reading ending closed (before fs (encode_frame frame_data payload ++ rest)))
        ≡ (read_response payload, reading ending closed rest)
  recv-data payload rest h small =
      let (left, e) = skipped (encode_frame frame_data payload ++ rest) h in
      let one = recv_loop-encode_frame parse_end left ending frame_data payload rest small in
      e ∙ ap (λ r. (r.0, record (reading ending closed rest) { body = r.1 })) one

  -- The end-of-stream envelope behind them gives `io.EOF` for an empty payload or one without an
  -- error, and the backend's error otherwise.
  pub recv-end :
      (payload rest : Bytes)
      → All IsSkipped fs
      → length payload ≤ max_envelope_bytes
      → recv parse_end
          (reading ending closed (before fs (encode_frame frame_end_stream payload ++ rest)))
        ≡ (inr (end_stream parse_end payload), reading ending closed rest)
  recv-end payload rest h small =
      let (left, e) = skipped (encode_frame frame_end_stream payload ++ rest) h in
      let one = recv_loop-encode_frame parse_end left ending frame_end_stream payload rest small in
      e ∙ ap (λ r. (r.0, record (reading ending closed rest) { body = r.1 })) one

-- A body that ends right behind the header of an envelope of a plausible length that is not zero,
-- with none before it but envelopes that are passed over, gives an error that `errors.Is` takes
-- for `io.EOF`, the same as that of a stream that has ended well.
pub recv-cut :
    (parse_end : ParseEnd) (fs : List Frame) (closed : Bool) (flag n : ℕ)
    → All IsSkipped fs
    → 0 < n
    → n ≤ max_envelope_bytes
    → (recv parse_end (reading none closed (before fs (flag ∷ big_endian n)))).0 ≡ inr eof_error
unfolding big_endian
recv-cut parse_end fs closed flag n h some_bytes small =
    let (left, e) = skipped parse_end fs none closed (flag ∷ big_endian n) h in
    ap (λ r. r.0) e ∙ ap (λ r. r.0) (cut_round parse_end left flag n some_bytes small)
