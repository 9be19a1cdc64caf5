-- ===== src/Openai/ToolCalls/Examples.antt =====
-- A concrete run of the theorem on tool calls in pieces.
use devin2proxy.Prelude.{◌≡◌, refl, [], ◌∷◌, codes}
use devin2proxy.Wire.Tools.{ChatToolCall}
use devin2proxy.Openai.ToolCalls.{opened, add_delta, add_deltas, change_last}
use devin2proxy.Openai.ToolCalls.Merge.{assemble, arguments_of, assemble-add_deltas}

abbrev listing : ChatToolCall
listing = record { id = codes "c1"; name = codes "ls"; arguments_json = codes "{" }

abbrev more : ChatToolCall
more = record { id = []; name = []; arguments_json = codes "}" }

assemble-add_deltas_example :
    assemble
      (arguments_of (opened listing ∷ []))
      (add_deltas (opened listing ∷ []) (more ∷ listing ∷ [])).0
    ≡ arguments_of (add_deltas (opened listing ∷ []) (more ∷ listing ∷ [])).1
assemble-add_deltas_example = assemble-add_deltas (opened listing ∷ []) (more ∷ listing ∷ [])

two_calls :
    arguments_of (add_deltas [] (listing ∷ more ∷ listing ∷ [])).1 ≡ codes "{}" ∷ codes "{" ∷ []
unfolding arguments_of add_deltas add_delta change_last
two_calls = refl
