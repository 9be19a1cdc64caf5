-- ===== src/Openai/ToolCalls/Merge.antt =====
-- internal/openai/translate.go: a client that puts the updates together has the arguments of the calls.
use devin2proxy.Prelude.{
  ℕ, zero, suc, ◌-◌, ◌≡◌, refl, sym, ap, ◌∙◌, true, false, not, ◌||◌, Bool-cases, inl, inr, List,
  [], ◌∷◌, ◌++◌, Bytes, if◌then◌else◌, length, arith,
}
use devin2proxy.Wire.Tools.{ChatToolCall}
use devin2proxy.Openai.ToolCalls.{
  ToolCall, ToolCallUpdate, no_calls, is_empty_text, opening, continuing, opened, extended,
  change_last, add_delta, add_deltas,
}

-- What a client does with the updates: it opens a call, or appends to the one at the index.
unfoldable pub apply_at : ℕ → (Bytes → Bytes) → List Bytes → List Bytes
apply_at i change [] = []
apply_at zero change (b ∷ bs) = change b ∷ bs
apply_at (suc i) change (b ∷ bs) = b ∷ apply_at i change bs

unfoldable pub assemble : List Bytes → List ToolCallUpdate → List Bytes
assemble seen [] = seen
assemble seen (u ∷ updates) =
    assemble
      (if u.started
        then seen ++ (u.arguments ∷ [])
        else apply_at u.index (λ b. b ++ u.arguments) seen)
      updates

unfoldable pub arguments_of : List ToolCall → List Bytes
arguments_of [] = []
arguments_of (c ∷ calls) = c.arguments ∷ arguments_of calls

arguments_of-append :
    (calls : List ToolCall) (c : ToolCall)
    → arguments_of (calls ++ (c ∷ [])) ≡ arguments_of calls ++ (c.arguments ∷ [])
unfolding arguments_of
arguments_of-append [] c = refl
arguments_of-append (d ∷ calls) c = ap (λ t. d.arguments ∷ t) (arguments_of-append calls c)

arguments_of-change_last :
    (calls : List ToolCall) (d : ChatToolCall)
    → arguments_of (change_last (extended d) calls)
      ≡ apply_at (length calls - 1) (λ b. b ++ d.arguments_json) (arguments_of calls)
unfolding arguments_of change_last apply_at
arguments_of-change_last [] d = refl
arguments_of-change_last (c ∷ []) d = refl
arguments_of-change_last (c ∷ e ∷ calls) d =
    let place : suc (length (e ∷ calls) - 1) ≡ length (c ∷ e ∷ calls) - 1 = omega arith in
    ap (λ t. c.arguments ∷ t) (arguments_of-change_last (e ∷ calls) d)
    ∙ ap (λ n. apply_at n (λ b. b ++ d.arguments_json) (arguments_of (c ∷ e ∷ calls))) place

add_delta-opens :
    (calls : List ToolCall) (d : ChatToolCall)
    → (not (is_empty_text d.id) || no_calls calls) ≡ true
    → add_delta calls d ≡ (opening calls d, calls ++ (opened d ∷ []))
unfolding add_delta
add_delta-opens calls d h =
    ap
      (λ b.
        if b
        then (opening calls d, calls ++ (opened d ∷ []))
        else (continuing calls d, change_last (extended d) calls))
      h

add_delta_continues :
    (calls : List ToolCall) (d : ChatToolCall)
    → (not (is_empty_text d.id) || no_calls calls) ≡ false
    → add_delta calls d ≡ (continuing calls d, change_last (extended d) calls)
unfolding add_delta
add_delta_continues calls d h =
    ap
      (λ b.
        if b
        then (opening calls d, calls ++ (opened d ∷ []))
        else (continuing calls d, change_last (extended d) calls))
      h

assemble-add_delta :
    (calls : List ToolCall) (d : ChatToolCall) (rest : List ToolCallUpdate)
    → assemble (arguments_of calls) ((add_delta calls d).0 ∷ rest)
      ≡ assemble (arguments_of (add_delta calls d).1) rest
unfolding assemble
assemble-add_delta calls d rest = elim (Bool-cases (not (is_empty_text d.id) || no_calls calls)) [
  | inl opens ↦
      let e = add_delta-opens calls d opens in
      ap (λ t. assemble (arguments_of calls) (t.0 ∷ rest)) e
      ∙ ap (λ t. assemble t rest) (sym (arguments_of-append calls (opened d)))
      ∙ ap (λ t. assemble (arguments_of t.1) rest) (sym e)
  | inr goes_on ↦
      let e = add_delta_continues calls d goes_on in
      ap (λ t. assemble (arguments_of calls) (t.0 ∷ rest)) e
      ∙ ap (λ t. assemble t rest) (sym (arguments_of-change_last calls d))
      ∙ ap (λ t. assemble (arguments_of t.1) rest) (sym e)
]

-- A client that has the arguments of the calls before `Add` and puts the updates together, opening a
-- call where an update starts one and appending at its index otherwise, has them after it.
pub assemble-add_deltas :
    (calls : List ToolCall) (deltas : List ChatToolCall)
    → assemble (arguments_of calls) (add_deltas calls deltas).0
      ≡ arguments_of (add_deltas calls deltas).1
unfolding add_deltas assemble
assemble-add_deltas calls [] = refl
assemble-add_deltas calls (d ∷ deltas) =
    assemble-add_delta calls d (add_deltas (add_delta calls d).1 deltas).0
    ∙ assemble-add_deltas (add_delta calls d).1 deltas
