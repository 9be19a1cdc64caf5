-- ===== src/Openai/Stop/Examples.antt =====
-- A concrete run of the theorem on the stop filter.
use devin2proxy.Prelude.{◌≡◌, refl, List, [], ◌∷◌, Bytes, codes, index, arith}
use devin2proxy.Openai.Stop.{new_stop_filter, index_of_stop_from}
use devin2proxy.Openai.Stop.Reference.{run, cut_at_stop}
use devin2proxy.Openai.Stop.Chunks.{run-new_stop_filter}

-- A stop that three fragments share.
abbrev fragments : List Bytes
fragments = codes "go E" ∷ codes "N" ∷ codes "D on" ∷ []

run-new_stop_filter_example :
    run (new_stop_filter (codes "END" ∷ [])) fragments ≡ cut_at_stop (codes "END" ∷ []) [] fragments
run-new_stop_filter_example = run-new_stop_filter (codes "END" ∷ []) fragments (omega arith, tt)

stops_at_end : cut_at_stop (codes "END" ∷ []) [] fragments ≡ codes "go "
unfolding cut_at_stop index_of_stop_from index
stops_at_end = refl
