-- ===== src/Connect/Frames.antt =====
-- internal/devin/connect.go: what EncodeFrame writes, ParseFrames reads.
use devin2proxy.Prelude.{
  ℕ, zero, suc, ◌/◌, ◌%◌, ◌^◌, ◌<◌, ◌≤◌, ◌≡◌, ◌≢◌, refl, sym, ap, ◌∙◌, none, some, List, [], ◌∷◌,
  ◌++◌, Bytes, length, take, drop, length-append, append-nil, append_assoc, All, arith,
}
use devin2proxy.Pb.Fields.{take_append, drop_append, length-drop}
use devin2proxy.Connect.{
  Frame, FrameError, big_endian, from_big_endian, parse_loop, parse_frames, encode_frame,
}
use native.Mathlib.Nat.{mod-eq_of_lt}

-- The body of a stream: the frames one behind the other.
unfoldable pub encode_frames : List Frame → Bytes
encode_frames [] = []
encode_frames (f ∷ fs) = encode_frame f.flag f.payload ++ encode_frames fs

abbrev pub FrameFits : Frame → Type 0
FrameFits f = length f.payload < 2 ^ 32

pub from_big_endian-big_endian :
    (n : ℕ)
    → n < 2 ^ 32
    → from_big_endian (n / 2 ^ 24 % 256) (n / 2 ^ 16 % 256) (n / 2 ^ 8 % 256) (n % 256) ≡ n
unfolding from_big_endian
from_big_endian-big_endian n h = omega arith

abbrev pub header_number : ℕ → ℕ
header_number n = from_big_endian (n / 2 ^ 24 % 256) (n / 2 ^ 16 % 256) (n / 2 ^ 8 % 256) (n % 256)

-- One round on a header that claims `n` bytes of what follows.
parse_loop_round :
    (rounds : ℕ) (out : List Frame) (flag n : ℕ) (body : Bytes)
    → n ≤ length body
    → header_number n ≡ n
    → parse_loop (suc rounds) out (flag ∷ (big_endian n ++ body))
      ≡ parse_loop rounds
          (out ++ (record { flag = flag; payload = take n body } ∷ []))
          (drop n body)
unfolding parse_loop big_endian
parse_loop_round rounds out flag n body h e = rw e (ground arith)

parse_loop-encode_frame :
    (rounds : ℕ) (out : List Frame) (f : Frame) (rest : Bytes)
    → FrameFits f
    → parse_loop (suc rounds) out (encode_frame f.flag f.payload ++ rest)
      ≡ parse_loop rounds (out ++ (f ∷ [])) rest
unfolding encode_frame
parse_loop-encode_frame rounds out f rest h =
    let n = length f.payload in
    let size : n % 2 ^ 32 ≡ n = mod-eq_of_lt h in
    let fits : n ≤ length (f.payload ++ rest) = omega (arith, length-append f.payload rest) in
    ap (λ b. parse_loop (suc rounds) out (f.flag ∷ b))
      (append_assoc (big_endian (n % 2 ^ 32)) f.payload rest
        ∙ ap (λ m. big_endian m ++ (f.payload ++ rest)) size)
    ∙ parse_loop_round rounds out f.flag n (f.payload ++ rest) fits (from_big_endian-big_endian n h)
    ∙ (λ i.
        parse_loop rounds
          (out ++ (record { flag = f.flag; payload = take_append f.payload rest i } ∷ []))
          (drop_append f.payload rest i))

parse_loop-empty : (rounds : ℕ) (out : List Frame) → parse_loop rounds out [] ≡ (out, none)
unfolding parse_loop
parse_loop-empty zero out = refl
parse_loop-empty (suc rounds) out = refl

parse_loop-encode_frames :
    (fs : List Frame) (rounds : ℕ) (out : List Frame)
    → All FrameFits fs
    → length fs ≤ rounds
    → parse_loop rounds out (encode_frames fs) ≡ (out ++ fs, none)
unfolding encode_frames
parse_loop-encode_frames [] rounds out h enough =
    parse_loop-empty rounds out ∙ ap (λ t. (t, none)) (sym (append-nil out))
parse_loop-encode_frames (f ∷ fs) zero out h enough = absurd (omega arith)
parse_loop-encode_frames (f ∷ fs) (suc rounds) out (h, hs) enough =
    parse_loop-encode_frame rounds out f (encode_frames fs) h
    ∙ parse_loop-encode_frames fs rounds (out ++ (f ∷ [])) hs (omega arith)
    ∙ ap (λ t. (t, none)) (append_assoc out (f ∷ []) fs)

length-encode_frames : (fs : List Frame) → length fs ≤ length (encode_frames fs)
unfolding encode_frames encode_frame
length-encode_frames [] = omega arith
length-encode_frames (f ∷ fs) = omega (
  arith,
  length-encode_frames fs,
  length-append (encode_frame f.flag f.payload) (encode_frames fs),
)

-- A body made of frames, each shorter than 2 ^ 32 bytes, parses to those frames and no error.
pub parse_frames-encode_frames :
    (fs : List Frame) → All FrameFits fs → parse_frames (encode_frames fs) ≡ (fs, none)
unfolding parse_frames
parse_frames-encode_frames fs h =
    parse_loop-encode_frames fs (length (encode_frames fs)) [] h (length-encode_frames fs)

length-drop_le : (n : ℕ) (b : Bytes) → length (drop n b) ≤ length b
length-drop_le n b = omega (arith, length-drop n b)

parse_loop_ends :
    (rounds : ℕ) (out : List Frame) (b : Bytes)
    → length b ≤ rounds
    → (parse_loop rounds out b).1 ≢ some FrameError.out_of_rounds
unfolding parse_loop
parse_loop_ends zero out [] h = ground arith
parse_loop_ends zero out (b ∷ bs) h = absurd (omega arith)
parse_loop_ends (suc rounds) out [] h = ground arith
parse_loop_ends (suc rounds) out (a ∷ []) h = ground arith
parse_loop_ends (suc rounds) out (a ∷ b ∷ []) h = ground arith
parse_loop_ends (suc rounds) out (a ∷ b ∷ c ∷ []) h = ground arith
parse_loop_ends (suc rounds) out (a ∷ b ∷ c ∷ d ∷ []) h = ground arith
parse_loop_ends (suc rounds) out (a ∷ b ∷ c ∷ d ∷ e ∷ body) h =
    let n = from_big_endian b c d e in
    let rest =
      parse_loop_ends rounds (out ++ (record { flag = a; payload = take n body } ∷ []))
        (drop n body) (omega (arith, length-drop_le n body)) in
    ground (arith, rest)

-- On any body, well-formed or not, the parser does not run out of rounds.
pub parse_frames_ends : (b : Bytes) → (parse_frames b).1 ≢ some FrameError.out_of_rounds
unfolding parse_frames
parse_frames_ends b = parse_loop_ends (length b) [] b (omega arith)
