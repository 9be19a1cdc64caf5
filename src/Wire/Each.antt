-- ===== src/Wire/Each.antt =====
-- internal/devin/wire.go: a field written for each element of a slice.
use devin2proxy.Prelude.{
  All, ℕ, ◌^◌, ◌≤◌, ◌<◌, ◌≡◌, sym, subst, none, List, [], ◌∷◌, ◌++◌, append-nil, append_assoc,
  Bytes, length,
}
use devin2proxy.Pb.Writer.{write_raw_bytes}
use devin2proxy.Pb.Reader.{Reader, read_bytes}
use devin2proxy.Wire.Loop.{Leads}
use devin2proxy.Wire.Writes.{Leads-write_raw_bytes}

module _ {X : Type 0} where
  -- `for _, x := range xs { w.RawBytes(field, encode(x)) }`
  unfoldable pub write_each : Bytes → ℕ → (X → Bytes) → List X → Bytes
  write_each buf field encode [] = buf
  write_each buf field encode (x ∷ xs) =
      write_each (write_raw_bytes buf field (encode x)) field encode xs

module _ {A X : Type 0} where
  -- A field whose switch appends what it decodes.
  Leads-write_each_from :
      (step : ℕ → ℕ → Reader → A → A × Reader) (start : A) (set : List X → A) (encode : X → Bytes)
      (decode : Bytes → X) (field : ℕ) (done xs : List X) (buf : Bytes)
      → 1 ≤ field
      → field < 2 ^ 29
      → All (λ x. (length (encode x) < 2 ^ 64) × (decode (encode x) ≡ x)) xs
      → ((ys : List X) (r : Reader)
          → (read_bytes r).1.err ≡ none
          → step field 2 r (set ys)
            ≡ (set (ys ++ (decode (read_bytes r).0 ∷ [])), (read_bytes r).1))
      → Leads step start buf (set done)
      → Leads step start (write_each buf field encode xs) (set (done ++ xs))
  unfolding write_each
  Leads-write_each_from step start set encode decode field done [] buf h1 hf each takes leads =
      subst (λ ys. Leads step start buf (set ys)) (sym (append-nil done)) leads
  Leads-write_each_from step start set encode decode field done (x ∷ xs) buf h1 hf
        ((fits, back), each) takes leads =
      let first =
        Leads-write_raw_bytes step start (set done) (λ b. set (done ++ (decode b ∷ []))) buf field
          (encode x) h1 hf fits (takes done) leads in
      subst
        (λ ys.
          Leads step start (write_each (write_raw_bytes buf field (encode x)) field encode xs)
            (set ys))
        (append_assoc done (x ∷ []) xs)
        (Leads-write_each_from step start set encode decode field (done ++ (x ∷ [])) xs
          (write_raw_bytes buf field (encode x)) h1 hf each takes
          (subst
            (λ y. Leads step start (write_raw_bytes buf field (encode x)) (set (done ++ (y ∷ []))))
            back first))

  pub Leads-write_each :
      (step : ℕ → ℕ → Reader → A → A × Reader) (start : A) (set : List X → A) (encode : X → Bytes)
      (decode : Bytes → X) (field : ℕ) (xs : List X) (buf : Bytes)
      → 1 ≤ field
      → field < 2 ^ 29
      → All (λ x. (length (encode x) < 2 ^ 64) × (decode (encode x) ≡ x)) xs
      → ((ys : List X) (r : Reader)
          → (read_bytes r).1.err ≡ none
          → step field 2 r (set ys)
            ≡ (set (ys ++ (decode (read_bytes r).0 ∷ [])), (read_bytes r).1))
      → Leads step start buf (set [])
      → Leads step start (write_each buf field encode xs) (set xs)
  Leads-write_each step start set encode decode field xs buf =
      Leads-write_each_from step start set encode decode field [] xs buf
