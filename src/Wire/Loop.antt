-- ===== src/Wire/Loop.antt =====
-- internal/devin/wire.go: the loop that every decoder runs over the fields of a message, and when
-- bytes that the writer made decode to a record.
use devin2proxy.Prelude.{
  ℕ, zero, suc, ◌+◌, ◌^◌, ◌≤◌, ◌<◌, ◌≡◌, refl, sym, ap, ◌∙◌, subst, Option, none, some, [], ◌++◌,
  append-nil, append_assoc, arith, Bytes, length, length-append, drop,
}
use devin2proxy.Pb.Writer.{tag}
use devin2proxy.Pb.Reader.{Reader, new_reader, advance, read_field}
use devin2proxy.Pb.Fields.{tag_nonempty, read_field_end, read_field-tag}

module _ {A : Type 0} where
  -- `for { f, w, ok := r.Field(); if !ok { break }; switch … }`, where `step` is the switch. A round
  -- takes a byte at least, so that one round more than there are bytes is enough.
  unfoldable pub decode_loop : (ℕ → ℕ → Reader → A → A × Reader) → ℕ → Reader → A → A × Reader
  decode_loop step zero r out = (out, r)
  decode_loop step (suc rounds) r out =
      let (found, r') = read_field r in
      elim found [
        | none ↦ (out, r')
        | some t ↦ let (out', r'') = step t.0 t.1 r' out in decode_loop step rounds r'' out'
      ]

  unfoldable pub decode : (ℕ → ℕ → Reader → A → A × Reader) → A → Bytes → A × Reader
  decode step out b = decode_loop step (suc (length b)) (new_reader b) out

  -- From `out`, the loop over `b` ends without an error at `res`.
  unfoldable pub Ends : (ℕ → ℕ → Reader → A → A × Reader) → A → Bytes → A → Type 0
  Ends step out b res =
      (r : Reader) (rounds : ℕ)
      → r.err ≡ none
      → drop r.i r.buf ≡ b
      → length b < rounds
      → ((decode_loop step rounds r out).0 ≡ res) × ((decode_loop step rounds r out).1.err ≡ none)

  -- `b` takes the loop from `from` to `out`, whatever follows.
  unfoldable pub Leads : (ℕ → ℕ → Reader → A → A × Reader) → A → Bytes → A → Type 0
  Leads step from b out =
      (rest : Bytes) (res : A) → Ends step out rest res → Ends step from (b ++ rest) res

  pub Leads-empty : (step : ℕ → ℕ → Reader → A → A × Reader) (from : A) → Leads step from [] from
  unfolding Leads
  Leads-empty step from rest res e = e

  decode_loop_next :
      (step : ℕ → ℕ → Reader → A → A × Reader) (rounds : ℕ) (r r' r'' : Reader) (f w : ℕ)
      (from out : A)
      → read_field r ≡ (some (f, w), r')
      → step f w r' from ≡ (out, r'')
      → decode_loop step (suc rounds) r from ≡ decode_loop step rounds r'' out
  unfolding decode_loop
  decode_loop_next step rounds r r' r'' f w from out e s =
      ap
        (λ (t : Option (ℕ × ℕ) × Reader). elim t.0 [
          | none ↦ (from, t.1)
          | some p ↦ decode_loop step rounds (step p.0 p.1 t.1 from).1 (step p.0 p.1 t.1 from).0
        ])
        e
      ∙ ap (λ t. decode_loop step rounds t.1 t.0) s

  decode_loop_end :
      (step : ℕ → ℕ → Reader → A → A × Reader) (rounds : ℕ) (r : Reader) (from : A)
      → read_field r ≡ (none, r)
      → decode_loop step (suc rounds) r from ≡ (from, r)
  unfolding decode_loop
  decode_loop_end step rounds r from e =
      ap
        (λ (t : Option (ℕ × ℕ) × Reader). elim t.0 [
          | none ↦ (from, t.1)
          | some p ↦ decode_loop step rounds (step p.0 p.1 t.1 from).1 (step p.0 p.1 t.1 from).0
        ])
        e

  pub Ends-empty : (step : ℕ → ℕ → Reader → A → A × Reader) (from : A) → Ends step from [] from
  unfolding Ends
  Ends-empty step from r zero he e h = absurd (omega arith)
  Ends-empty step from r (suc rounds) he e h =
      let last = decode_loop_end step rounds r from (read_field_end r e) in
      (ap (λ t. t.0) last, ap (λ t. t.1.err) last ∙ he)

  -- One field in front, given that the switch takes its payload.
  Ends-field :
      (step : ℕ → ℕ → Reader → A → A × Reader) (from out res : A) (field wire : ℕ)
      (payload rest : Bytes)
      → 1 ≤ field
      → field < 2 ^ 29
      → wire < 8
      → ((r : Reader)
          → r.err ≡ none
          → drop r.i r.buf ≡ payload ++ rest
          → (step field wire r from ≡ (out, advance r (length payload)))
            × (drop (r.i + length payload) r.buf ≡ rest))
      → Ends step out rest res
      → Ends step from ((tag [] field wire ++ payload) ++ rest) res
  unfolding Ends
  Ends-field step from out res field wire payload rest h1 hf hw taken ends r zero he e h =
      absurd (omega arith)
  Ends-field step from out res field wire payload rest h1 hf hw taken ends r (suc rounds) he e h =
      let (found, behind) =
        read_field-tag r field wire (payload ++ rest) he h1 hf hw
          (e ∙ append_assoc (tag [] field wire) payload rest) in
      let r' = advance r (length (tag [] field wire)) in
      let (read, after) = taken r' he behind in
      let next =
        decode_loop_next step rounds r r' (advance r' (length payload)) field wire from out found
          read in
      let enough : length rest < rounds = omega (
        arith,
        tag_nonempty field wire hf hw,
        length-append (tag [] field wire ++ payload) rest,
        length-append (tag [] field wire) payload,
      ) in
      let (value, clean) = ends (advance r' (length payload)) rounds he after enough in
      (ap (λ t. t.0) next ∙ value, ap (λ t. t.1.err) next ∙ clean)

  pub Leads-field :
      (step : ℕ → ℕ → Reader → A → A × Reader) (start from out : A) (buf : Bytes) (field wire : ℕ)
      (payload : Bytes)
      → 1 ≤ field
      → field < 2 ^ 29
      → wire < 8
      → ((r : Reader) (rest : Bytes)
          → r.err ≡ none
          → drop r.i r.buf ≡ payload ++ rest
          → (step field wire r from ≡ (out, advance r (length payload)))
            × (drop (r.i + length payload) r.buf ≡ rest))
      → Leads step start buf from
      → Leads step start (buf ++ (tag [] field wire ++ payload)) out
  unfolding Leads
  Leads-field step start from out buf field wire payload h1 hf hw taken leads rest res ends =
      subst (λ b. Ends step start b res)
        (sym (append_assoc buf (tag [] field wire ++ payload) rest))
        (leads ((tag [] field wire ++ payload) ++ rest) res
          (Ends-field step from out res field wire payload rest h1 hf hw (λ r. taken r rest) ends))

  -- The bytes that lead to a record decode to it, without an error.
  pub decode-Leads :
      (step : ℕ → ℕ → Reader → A → A × Reader) (start out : A) (b : Bytes)
      → Leads step start b out
      → ((decode step start b).0 ≡ out) × ((decode step start b).1.err ≡ none)
  unfolding decode Leads Ends new_reader
  decode-Leads step start out b leads =
      let ends =
        subst (λ t. Ends step start t out) (append-nil b) (leads [] out (Ends-empty step out)) in
      ends (new_reader b) (suc (length b)) refl refl (omega arith)
