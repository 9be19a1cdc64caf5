-- ===== src/EventLog/Examples.antt =====
-- A concrete run of the theorem on the event history.
use devin2proxy.Prelude.{◌+◌, ◌≡◌, refl, [], ◌∷◌, ◌++◌, codes}
use devin2proxy.EventLog.{Event, Hub, new_hub, stamp, put, emit, recent_from, recent, zero_event}
use devin2proxy.EventLog.History.{HubWf, keep_last, new_hub-HubWf, recent-emit}

abbrev refusal : Event
refusal = record zero_event { kind = codes "request"; details = codes "429" }

-- A hub for one event that is full.
abbrev full_hub : Hub
full_hub = emit (new_hub 1) zero_event 5

full_hub-HubWf : HubWf full_hub
full_hub-HubWf = (recent-emit (new_hub 1) zero_event 5 (new_hub-HubWf 1)).1

recent-emit_example :
    (recent (emit full_hub refusal 7)
      ≡ keep_last full_hub.capacity (recent full_hub ++ (stamp 7 (full_hub.seq + 1) refusal ∷ [])))
    × HubWf (emit full_hub refusal 7)
recent-emit_example = recent-emit full_hub refusal 7 full_hub-HubWf

kept : recent (emit full_hub refusal 7) ≡ stamp 7 2 refusal ∷ []
unfolding new_hub emit put stamp recent recent_from
kept = refl
