-- ===== src/Openai/Stop/Chunks.antt =====
-- internal/openai/translate.go: a new stop filter, fed with the fragments of a stream.
use devin2proxy.Prelude.{
  ℕ, ◌≤◌, ◌≡◌, refl, sym, ◌∙◌, none, List, [], ◌∷◌, ◌++◌, Bytes, ltb, if◌then◌else◌, length, index,
  append_assoc, append-nil, All, arith,
}
use devin2proxy.Openai.Stop.{longest_of, new_stop_filter, index_of_stop_from, write, flush}
use devin2proxy.Openai.Stop.Search.{first_stop}
use devin2proxy.Openai.Stop.Reference.{run, cut_at_stop, run-cut_at_stop}

longest_of-le : (stops : List Bytes) (longest : ℕ) → longest ≤ longest_of stops longest
unfolding longest_of
longest_of-le [] longest = omega arith
longest_of-le (p ∷ stops) longest =
    ground (arith, longest_of-le stops (if ltb longest (length p) then length p else longest))

longest_of_fits :
    (stops : List Bytes) (longest : ℕ) → All (λ p. length p ≤ longest_of stops longest) stops
unfolding longest_of
longest_of_fits [] longest = tt
longest_of_fits (p ∷ stops) longest =
    let longest' = if ltb longest (length p) then length p else longest in
    (ground (arith, longest_of-le stops longest'), longest_of_fits stops longest')

index-empty : (p : Bytes) → 1 ≤ length p → index [] p ≡ none
unfolding index
index-empty [] h = absurd (omega arith)
index-empty (c ∷ p) h = refl

first_stop-empty : (stops : List Bytes) → All (λ p. 1 ≤ length p) stops → first_stop stops [] ≡ none
unfolding index_of_stop_from
first_stop-empty [] h = refl
first_stop-empty (p ∷ stops) (h, hs) = rw (index-empty p h) (first_stop-empty stops hs)

run_unfiltered :
    (ss : List Bytes) (e : Bytes) → e ++ run (new_stop_filter []) ss ≡ cut_at_stop [] e ss
unfolding run write flush new_stop_filter longest_of cut_at_stop index_of_stop_from
run_unfiltered [] e = append-nil e
run_unfiltered (s ∷ ss) e =
    sym (append_assoc e s (run (new_stop_filter []) ss)) ∙ run_unfiltered ss (e ++ s)

-- However a text is cut into fragments, and whatever the stops that are not empty, the filter lets
-- the client see what a search of all the text so far, after each fragment, would let it see.
pub run-new_stop_filter :
    (stops : List Bytes) (ss : List Bytes)
    → All (λ p. 1 ≤ length p) stops
    → run (new_stop_filter stops) ss ≡ cut_at_stop stops [] ss
unfolding new_stop_filter
run-new_stop_filter [] ss h = run_unfiltered ss []
run-new_stop_filter (p ∷ stops) ss h = run-cut_at_stop ss (new_stop_filter (p ∷ stops)) [] (record {
  some_stops = refl;
  fits = longest_of_fits (p ∷ stops) 0;
  unstopped = refl;
  unseen = first_stop-empty (p ∷ stops) h;
  held = λ some_out. absurd (omega arith);
})
