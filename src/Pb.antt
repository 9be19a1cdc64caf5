-- ===== src/Pb.antt =====
-- internal/pb/pb.go: the protobuf wire format. A `uint64` is a number below 2 ^ 64, an `int` and an
-- `int64` are their 64-bit patterns, and a float is its IEEE bits. `Dump` is left out.
pub mod Writer
pub mod Reader
pub mod Varint
pub mod Fields
pub mod Ends
