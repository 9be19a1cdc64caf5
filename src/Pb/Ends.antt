-- ===== src/Pb/Ends.antt =====
-- internal/pb/pb.go: the loop of the varint reader comes to an end by itself.
use devin2proxy.Prelude.{
  Option-cases, ℕ, zero, suc, ◌+◌, ◌*◌, ◌<◌, ◌≤◌, ◌≡◌, ◌≢◌, inl, inr, none, some, get_elem?, arith,
}
use devin2proxy.Pb.Reader.{
  Reader, PbError, add_group, advance, varint_byte, varint_from, read_varint,
}

varint_byte_ends :
    (r : Reader) (v shift b : ℕ) (more : Reader → ℕ × Reader)
    → r.err ≡ none
    → (shift + 7 < 64 → (more (advance r 1)).1.err ≢ some PbError.out_of_rounds)
    → (varint_byte r v shift b more).1.err ≢ some PbError.out_of_rounds
unfolding varint_byte
varint_byte_ends r v shift b more he rest = ground (arith, rest)

varint_from_ends :
    (rounds : ℕ) (r : Reader) (v shift : ℕ)
    → r.err ≡ none
    → shift < 64
    → 64 ≤ shift + 7 * rounds
    → (varint_from rounds r v shift).1.err ≢ some PbError.out_of_rounds
unfolding varint_from
varint_from_ends zero r v shift he hs enough = absurd (omega arith)
varint_from_ends (suc rounds) r v shift he hs enough = elim (Option-cases (get_elem? r.buf r.i)) [
  | inl past ↦ rw (varint_from, past, he) (ground arith)
  | inr (b, here) ↦
      rw (varint_from, here)
        (varint_byte_ends r v shift b
          (λ r'. varint_from rounds r' (add_group v b shift) (shift + 7)) he
          (λ more.
            varint_from_ends rounds (advance r 1) (add_group v b shift) (shift + 7) he more
              (omega arith)))
]

-- A reader without an error, on any bytes: the varint reader does not run out of its ten rounds.
pub read_varint_ends :
    (r : Reader) → r.err ≡ none → (read_varint r).1.err ≢ some PbError.out_of_rounds
unfolding read_varint
read_varint_ends r he = varint_from_ends 10 r 0 0 he (omega arith) (omega arith)
