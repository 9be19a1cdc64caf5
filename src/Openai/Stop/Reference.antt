-- ===== src/Openai/Stop/Reference.antt =====
-- internal/openai/translate.go: the stop filter against a search of all the text so far.
use native.Mathlib.Nat.{zero-add}
use mathlib.Core.Logic.{◌⊎◌}
use devin2proxy.Prelude.{
  ℕ, zero, suc, ◌+◌, ◌-◌, ◌≤◌, ◌≡◌, refl, sym, ap, ◌∙◌, inl, inr, true, false, Option-cases, none,
  some, List, [], ◌∷◌, ◌++◌, Bytes, ltb, if◌then◌else◌, length, length-append, take,
  take-append-drop, append_assoc, append-nil, All, arith,
}
use devin2proxy.Openai.Stop.Search.{first_stop, shift, first_stop-none, first_stop-shift}
use native.Mathlib.Decide.{dec_le}
use devin2proxy.Pb.Fields.{length-drop}
use devin2proxy.Openai.Stop.{
  no_stops, StopFilter, index_of_stop, align_cut, hold_back, emit_pending, write, flush,
}

-- The client gets what each write lets through and what is left at the end of the stream.
unfoldable pub run : StopFilter → List Bytes → Bytes
run f [] = (flush f).0
run f (s ∷ ss) = let (out, f') = write f s in out ++ run f' ss

-- The reference: after each fragment all the text so far is searched, and the first time that it
-- holds a stop, it ends where its first stop begins.
unfoldable pub cut_at_stop : List Bytes → Bytes → List Bytes → Bytes
cut_at_stop stops text [] = text
cut_at_stop stops text (s ∷ ss) = elim (first_stop stops (text ++ s)) [
  | some i ↦ take i (text ++ s)
  | none ↦ cut_at_stop stops (text ++ s) ss
]

-- A filter that has let `e` through: no stop begins in what it has seen, and it holds enough back
-- for a stop that is not complete yet.
pub record Holds (f : StopFilter) (e : Bytes) : Type 0 where
  pub some_stops : no_stops f.stops ≡ false
  pub fits : All (λ p. length p ≤ f.longest) f.stops
  pub unstopped : f.stopped ≡ false
  pub unseen : first_stop f.stops (e ++ f.pending) ≡ none
  pub held : 1 ≤ length e → f.longest ≤ length f.pending + 1

write-live :
    (f : StopFilter) (s : Bytes)
    → no_stops f.stops ≡ false
    → f.stopped ≡ false
    → write f s ≡ emit_pending (record f { pending = f.pending ++ s })
unfolding write
write-live f s any live = rw (any, live) refl

emit_pending-found :
    (f : StopFilter) (i : ℕ)
    → index_of_stop f ≡ some i
    → emit_pending f ≡ (take i f.pending, record f { pending = []; stopped = true })
unfolding emit_pending
emit_pending-found f i h = rw (emit_pending, h) refl

emit_pending-none : (f : StopFilter) → index_of_stop f ≡ none → emit_pending f ≡ hold_back f
unfolding emit_pending
emit_pending-none f h = rw (emit_pending, h) refl

write-stopped :
    (f : StopFilter) (s : Bytes) → no_stops f.stops ≡ false → f.stopped ≡ true → write f s ≡ ([], f)
unfolding write
write-stopped f s any h =
    ap
      (λ b.
        if b
        then (s, f)
        else if f.stopped
        then ([], f)
        else emit_pending (record f { pending = f.pending ++ s }))
      any
    ∙ ap (λ b. if b then ([], f) else emit_pending (record f { pending = f.pending ++ s })) h

flush-stopped : (f : StopFilter) → f.stopped ≡ true → (flush f).0 ≡ []
unfolding flush
flush-stopped f h = rw h refl

flush-live : (f : StopFilter) → f.stopped ≡ false → (flush f).0 ≡ f.pending
unfolding flush
flush-live f h = rw h refl

run-stopped :
    (f : StopFilter) (ss : List Bytes) → no_stops f.stops ≡ false → f.stopped ≡ true → run f ss ≡ []
unfolding run
run-stopped f [] any h = flush-stopped f h
run-stopped f (s ∷ ss) any h =
    ap (λ t. t.0 ++ run t.1 ss) (write-stopped f s any h) ∙ run-stopped f ss any h

align_cut-le : (pending : Bytes) (cut : ℕ) → align_cut pending cut ≤ cut
unfolding align_cut
align_cut-le pending zero = omega arith
align_cut-le pending (suc cut) = ground (arith, align_cut-le pending cut)

length-take_le : (n : ℕ) (xs : Bytes) → length (take n xs) ≤ n
length-take_le zero xs = omega arith
length-take_le (suc n) [] = omega arith
length-take_le (suc n) (x ∷ xs) = omega (arith, length-take_le n xs)

take-append_past : (e q : Bytes) (i : ℕ) → take (length e + i) (e ++ q) ≡ e ++ take i q
take-append_past [] q i = ap (λ n. take n q) (zero-add i)
take-append_past (b ∷ e) q i =
    let next : suc (length e) + i ≡ suc (length e + i) = omega arith in
    ap (λ n. take n (b ∷ (e ++ q))) next ∙ ap (λ t. b ∷ t) (take-append_past e q i)

-- What is let through is followed by what is held, and enough is held.
hold_back-append : (f : StopFilter) → (hold_back f).0 ++ (hold_back f).1.pending ≡ f.pending
unfolding hold_back
hold_back-append f = take-append-drop _ f.pending

hold_back_enough :
    (f : StopFilter)
    → (1 ≤ length (hold_back f).0) ⊎ (f.longest ≤ length f.pending + 1)
    → f.longest ≤ length (hold_back f).1.pending + 1
unfolding hold_back
hold_back_enough f why =
    let keep = if ltb (length f.pending) (f.longest - 1) then length f.pending else f.longest - 1 in
    let c = align_cut f.pending (length f.pending - keep) in
    ground (
      arith,
      length-drop c f.pending,
      align_cut-le f.pending (length f.pending - keep),
      length-take_le c f.pending,
    )

map_All :
    {A : Type 0} {P Q : A → Type 0} → ((a : A) → P a → Q a) → (xs : List A) → All P xs → All Q xs
map_All f [] h = tt
map_All f (x ∷ xs) (h, hs) = (f x h, map_All f xs hs)

-- Where the first stop of all the text begins, when it is not in what was seen before `s`.
seen-shift :
    (f : StopFilter) (e s : Bytes)
    → Holds f e
    → first_stop f.stops ((e ++ f.pending) ++ s)
      ≡ shift (length e) (first_stop f.stops (f.pending ++ s))
seen-shift f e s h =
    ap (first_stop f.stops) (append_assoc e f.pending s)
    ∙ first_stop-shift e f.pending s f.stops none
        (first_stop-none f.stops (e ++ f.pending) none h.unseen).1
        (map_All (λ p small some_out. omega (arith, small, h.held some_out)) f.stops h.fits)

cut_at_stop-found :
    (stops : List Bytes) (text s : Bytes) (ss : List Bytes) (i : ℕ)
    → first_stop stops (text ++ s) ≡ some i
    → cut_at_stop stops text (s ∷ ss) ≡ take i (text ++ s)
unfolding cut_at_stop
cut_at_stop-found stops text s ss i h = rw (cut_at_stop, h) refl

pub cut_at_stop-none :
    (stops : List Bytes) (text s : Bytes) (ss : List Bytes)
    → first_stop stops (text ++ s) ≡ none
    → cut_at_stop stops text (s ∷ ss) ≡ cut_at_stop stops (text ++ s) ss
unfolding cut_at_stop
cut_at_stop-none stops text s ss h = rw (cut_at_stop, h) refl

index_of_stop-first : (f : StopFilter) → index_of_stop f ≡ first_stop f.stops f.pending
unfolding index_of_stop
index_of_stop-first f = refl

hold_back-Holds :
    (f : StopFilter) (e s : Bytes)
    → (h : Holds f e)
    → (e ++ (hold_back (record f { pending = f.pending ++ s })).0)
        ++ (hold_back (record f { pending = f.pending ++ s })).1.pending
      ≡ (e ++ f.pending) ++ s
    → first_stop f.stops ((e ++ f.pending) ++ s) ≡ none
    → Holds
        (hold_back (record f { pending = f.pending ++ s })).1
        (e ++ (hold_back (record f { pending = f.pending ++ s })).0)
unfolding hold_back
hold_back-Holds f e s h text clear =
    let g = record f { pending = f.pending ++ s } in
    record {
      some_stops = h.some_stops;
      fits = h.fits;
      unstopped = h.unstopped;
      unseen = ap (first_stop f.stops) text ∙ clear;
      held = λ some_out.
          let size = length-append e (hold_back g).0 in
          let grown = length-append f.pending s in
          hold_back_enough g (elim (dec_le 1 (length e)) [
            | yes before ↦ inr (omega (arith, h.held before, grown))
            | no now ↦ inl (omega (arith, size, some_out))
          ]);
    }

pub run-cut_at_stop :
    (ss : List Bytes) (f : StopFilter) (e : Bytes)
    → Holds f e
    → e ++ run f ss ≡ cut_at_stop f.stops (e ++ f.pending) ss
unfolding run cut_at_stop hold_back
run-cut_at_stop [] f e h = ap (λ t. e ++ t) (flush-live f h.unstopped)
run-cut_at_stop (s ∷ ss) f e h =
    let g = record f { pending = f.pending ++ s } in
    let live = write-live f s h.some_stops h.unstopped in
    let whole = seen-shift f e s h in
    elim (Option-cases (first_stop f.stops g.pending)) [
      | inr (i, found) ↦
          let ended = live ∙ emit_pending-found g i (index_of_stop-first g ∙ found) in
          let stopped = record g { pending = []; stopped = true } in
          let out : run f (s ∷ ss) ≡ take i g.pending =
            ap (λ t. t.0 ++ run t.1 ss) ended
            ∙ ap (λ t. take i g.pending ++ t) (run-stopped stopped ss h.some_stops refl)
            ∙ append-nil (take i g.pending) in
          ap (λ t. e ++ t) out
          ∙ sym (take-append_past e g.pending i)
          ∙ ap (take (length e + i)) (sym (append_assoc e f.pending s))
          ∙ sym (
              cut_at_stop-found f.stops (e ++ f.pending) s ss (length e + i)
                (whole ∙ ap (shift (length e)) found))
      | inl clear ↦
          let passed = live ∙ emit_pending-none g (index_of_stop-first g ∙ clear) in
          let out = (hold_back g).0 in
          let f' = (hold_back g).1 in
          let text : (e ++ out) ++ f'.pending ≡ (e ++ f.pending) ++ s =
            append_assoc e out f'.pending
            ∙ ap (λ t. e ++ t) (hold_back-append g)
            ∙ sym (append_assoc e f.pending s) in
          let none_yet = whole ∙ ap (shift (length e)) clear in
          ap (λ t. e ++ (t.0 ++ run t.1 ss)) passed
          ∙ sym (append_assoc e out (run f' ss))
          ∙ run-cut_at_stop ss f' (e ++ out) (hold_back-Holds f e s h text none_yet)
          ∙ ap (λ t. cut_at_stop f.stops t ss) text
          ∙ sym (cut_at_stop-none f.stops (e ++ f.pending) s ss none_yet)
    ]
