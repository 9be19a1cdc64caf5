-- ===== src/Connect/Examples.antt =====
-- Concrete runs of the theorems on Connect frames.
use devin2proxy.Prelude.{some, ◌≢◌, ◌≡◌, none, [], ◌∷◌, List, codes, arith}
use devin2proxy.Connect.{FrameError, Frame, frame_data, frame_end_stream, parse_frames}
use devin2proxy.Connect.Frames.{encode_frames, parse_frames-encode_frames, parse_frames_ends}

abbrev chunk_and_end : List Frame
chunk_and_end =
    record { flag = frame_data; payload = 8 ∷ 1 ∷ [] }
    ∷ record { flag = frame_end_stream; payload = codes "{}" }
    ∷ []

parse_frames-encode_frames_example :
    parse_frames (encode_frames chunk_and_end) ≡ (chunk_and_end, none)
parse_frames-encode_frames_example =
    parse_frames-encode_frames chunk_and_end (omega arith, (omega arith, tt))

parse_frames_ends_example :
    (parse_frames (0 ∷ 0 ∷ 0 ∷ 1 ∷ 0 ∷ 7 ∷ [])).1 ≢ some FrameError.out_of_rounds
parse_frames_ends_example = parse_frames_ends (0 ∷ 0 ∷ 0 ∷ 1 ∷ 0 ∷ 7 ∷ [])
