-- ===== src/Wire/Writes.antt =====
-- internal/devin/wire.go: what each call of the writer in an encoder leads a decoder to.
use devin2proxy.Prelude.{
  Bool-cases, inl, inr, ℕ, zero, suc, ◌%◌, ◌^◌, ◌≤◌, ◌<◌, ◌≡◌, ◌≢◌, refl, sym, ap, ◌∙◌, subst, Bool,
  true, false, not, none, [], ◌∷◌, ◌++◌, append_assoc, arith, Bytes, ◌==◌, length,
}
use devin2proxy.Pb.Writer.{
  varint, tag, write_varint, write_uint64, write_bool, write_string, write_raw_bytes, write_double,
  little_endian,
}
use devin2proxy.Pb.Reader.{Reader, read_varint, read_bytes, read_double}
use devin2proxy.Pb.Varint.{read_varint-varint}
use devin2proxy.Pb.Fields.{
  tag-append, write_varint-append, write_raw_bytes-append, read_bytes_lem, read_double_lem,
}
use devin2proxy.Wire.Loop.{Leads, Leads-field}

write_uint64-zero : (buf : Bytes) (field : ℕ) → write_uint64 buf field 0 ≡ buf
unfolding write_uint64
write_uint64-zero buf field = refl

write_uint64-suc :
    (buf : Bytes) (field v : ℕ) → write_uint64 buf field (suc v) ≡ write_varint buf field (suc v)
unfolding write_uint64
write_uint64-suc buf field v = ground arith

write_double-zero : (buf : Bytes) (field bits : ℕ) → bits ≡ 0 → write_double buf field bits ≡ buf
unfolding write_double
write_double-zero buf field bits h = rw h refl

write_double_nonzero :
    (buf : Bytes) (field bits : ℕ)
    → field < 2 ^ 29
    → bits % 2 ^ 63 ≢ 0
    → write_double buf field bits ≡ buf ++ (tag [] field 1 ++ little_endian 8 bits)
unfolding write_double
write_double_nonzero buf field bits hf h =
    let written : tag buf field 1 ++ little_endian 8 bits
        ≡ buf ++ (tag [] field 1 ++ little_endian 8 bits) =
      ap (λ t. t ++ little_endian 8 bits) (tag-append buf field 1 hf (omega arith))
      ∙ append_assoc buf (tag [] field 1) (little_endian 8 bits) in
    ground (arith, written)

module _ {A : Type 0} where
  -- A field whose switch reads a varint.
  pub Leads-write_varint :
      (step : ℕ → ℕ → Reader → A → A × Reader) (start from : A) (set : ℕ → A) (buf : Bytes)
      (field v : ℕ)
      → 1 ≤ field
      → field < 2 ^ 29
      → v < 2 ^ 64
      → ((r : Reader) → step field 0 r from ≡ (set (read_varint r).0, (read_varint r).1))
      → Leads step start buf from
      → Leads step start (write_varint buf field v) (set v)
  Leads-write_varint step start from set buf field v h1 hf hv takes leads =
      subst (λ b. Leads step start b (set v)) (sym (write_varint-append buf field v hf hv))
        (Leads-field step start from (set v) buf field 0 (varint [] v) h1 hf (omega arith)
          (λ r rest he e.
            let (value, after) = read_varint-varint r v rest hv e in
            (takes r ∙ ap (λ t. (set t.0, t.1)) value, after))
          leads)

  pub Leads-write_uint64 :
      (step : ℕ → ℕ → Reader → A → A × Reader) (start : A) (set : ℕ → A) (buf : Bytes) (field v : ℕ)
      → 1 ≤ field
      → field < 2 ^ 29
      → v < 2 ^ 64
      → ((r : Reader) → step field 0 r (set 0) ≡ (set (read_varint r).0, (read_varint r).1))
      → Leads step start buf (set 0)
      → Leads step start (write_uint64 buf field v) (set v)
  Leads-write_uint64 step start set buf field zero h1 hf hv takes leads =
      subst (λ t. Leads step start t (set 0)) (sym (write_uint64-zero buf field)) leads
  Leads-write_uint64 step start set buf field (suc v) h1 hf hv takes leads =
      subst (λ t. Leads step start t (set (suc v))) (sym (write_uint64-suc buf field v))
        (Leads-write_varint step start (set 0) set buf field (suc v) h1 hf hv takes leads)

  pub Leads-write_bool :
      (step : ℕ → ℕ → Reader → A → A × Reader) (start : A) (set : Bool → A) (buf : Bytes)
      (field : ℕ) (v : Bool)
      → 1 ≤ field
      → field < 2 ^ 29
      → ((r : Reader)
          → step field 0 r (set false) ≡ (set (not ((read_varint r).0 == 0)), (read_varint r).1))
      → Leads step start buf (set false)
      → Leads step start (write_bool buf field v) (set v)
  unfolding write_bool
  Leads-write_bool step start set buf field false h1 hf takes leads = leads
  Leads-write_bool step start set buf field true h1 hf takes leads =
      Leads-write_varint step start (set false) (λ n. set (not (n == 0))) buf field 1 h1 hf
        (omega arith) takes leads

  -- A field whose switch reads a length and the bytes.
  pub Leads-write_raw_bytes :
      (step : ℕ → ℕ → Reader → A → A × Reader) (start from : A) (set : Bytes → A) (buf : Bytes)
      (field : ℕ) (b : Bytes)
      → 1 ≤ field
      → field < 2 ^ 29
      → length b < 2 ^ 64
      → ((r : Reader)
          → (read_bytes r).1.err ≡ none
          → step field 2 r from ≡ (set (read_bytes r).0, (read_bytes r).1))
      → Leads step start buf from
      → Leads step start (write_raw_bytes buf field b) (set b)
  Leads-write_raw_bytes step start from set buf field b h1 hf hb takes leads =
      subst (λ t. Leads step start t (set b)) (sym (write_raw_bytes-append buf field b hf hb))
        (Leads-field step start from (set b) buf field 2 (varint [] (length b) ++ b) h1 hf
          (omega arith)
          (λ r rest he e.
            let (value, after) = read_bytes_lem r b rest he hb e in
            (takes r (ap (λ t. t.1.err) value ∙ he) ∙ ap (λ t. (set t.0, t.1)) value, after))
          leads)

  pub Leads-write_string :
      (step : ℕ → ℕ → Reader → A → A × Reader) (start : A) (set : Bytes → A) (buf : Bytes)
      (field : ℕ) (s : Bytes)
      → 1 ≤ field
      → field < 2 ^ 29
      → length s < 2 ^ 64
      → ((r : Reader) → step field 2 r (set []) ≡ (set (read_bytes r).0, (read_bytes r).1))
      → Leads step start buf (set [])
      → Leads step start (write_string buf field s) (set s)
  unfolding write_string
  Leads-write_string step start set buf field [] h1 hf hs takes leads = leads
  Leads-write_string step start set buf field (c ∷ s) h1 hf hs takes leads =
      Leads-write_raw_bytes step start (set []) set buf field (c ∷ s) h1 hf hs (λ r ok. takes r)
        leads

  -- A float whose bits are not those of the negative zero, which the writer leaves out too.
  pub Leads-write_double :
      (step : ℕ → ℕ → Reader → A → A × Reader) (start : A) (set : ℕ → A) (buf : Bytes)
      (field bits : ℕ)
      → 1 ≤ field
      → field < 2 ^ 29
      → bits < 2 ^ 64
      → bits ≢ 2 ^ 63
      → ((r : Reader) → step field 1 r (set 0) ≡ (set (read_double r).0, (read_double r).1))
      → Leads step start buf (set 0)
      → Leads step start (write_double buf field bits) (set bits)
  Leads-write_double step start set buf field bits h1 hf hb plus takes leads =
      elim (Bool-cases (bits % 2 ^ 63 == 0)) [
        | inl zeros ↦
            let none_set : bits ≡ 0 = ground arith in
            subst (λ t. Leads step start t (set bits))
              (sym (write_double-zero buf field bits none_set))
              (subst (λ n. Leads step start buf (set n)) (sym none_set) leads)
        | inr some_set ↦
            let nonzero : bits % 2 ^ 63 ≢ 0 = ground arith in
            subst (λ t. Leads step start t (set bits))
              (sym (write_double_nonzero buf field bits hf nonzero))
              (Leads-field step start (set 0) (set bits) buf field 1 (little_endian 8 bits) h1 hf
                (omega arith)
                (λ r rest he e.
                  let (value, after) = read_double_lem r bits rest hb e in
                  (takes r ∙ ap (λ t. (set t.0, t.1)) value, after))
                leads)
      ]
