-- ===== src/EventLog.antt =====
-- internal/eventlog/eventlog.go: the bounded history of events. The fields of an event that no
-- operation reads are its `details`, and the zero time is 0.
pub mod History
pub mod Lines
mod Examples
use devin2proxy.Prelude.{
  ℕ, zero, suc, ◌+◌, ◌-◌, ◌%◌, Bool, ◌||◌, List, [], ◌∷◌, ◌++◌, Bytes, bytes_eq, codes, ltb, ◌==◌,
  if◌then◌else◌, length, get_or, set, replicate,
}

pub record Event : Type 0 where
  pub seq : ℕ
  pub time : ℕ
  pub kind : Bytes
  pub level : Bytes
  pub details : Bytes

abbrev pub zero_event : Event
zero_event = record { seq = 0; time = 0; kind = []; level = []; details = [] }

abbrev pub default_capacity : ℕ
default_capacity = 1000

pub record Hub : Type 0 where
  pub ring : List Event
  pub start : ℕ
  pub count : ℕ
  pub seq : ℕ
  pub capacity : ℕ

unfoldable pub new_hub : ℕ → Hub
new_hub capacity =
    let capacity' = if ltb capacity 1 then default_capacity else capacity in
    record {
      ring = replicate capacity' zero_event;
      start = 0;
      count = 0;
      seq = 0;
      capacity = capacity';
    }

abbrev pub is_known : Bytes → Bool
is_known kind =
    bytes_eq kind (codes "request") || bytes_eq kind (codes "log") || bytes_eq kind (codes "oauth")

-- What `Emit` fills in, at the time `now` and with the number `seq`.
unfoldable pub stamp : ℕ → ℕ → Event → Event
stamp now seq e = record {
  seq = seq;
  time = if e.time == 0 then now else e.time;
  kind = if is_known e.kind then e.kind else codes "log";
  level = if bytes_eq e.level [] then codes "info" else e.level;
  details = e.details;
}

unfoldable pub put : Hub → Event → Hub
put h e =
    if ltb h.count h.capacity
    then record h { ring = set h.ring ((h.start + h.count) % h.capacity) e; count = h.count + 1 }
    else record h { ring = set h.ring h.start e; start = (h.start + 1) % h.capacity }

unfoldable pub emit : Hub → Event → ℕ → Hub
emit h e now = let h' = record h { seq = h.seq + 1 } in put h' (stamp now h'.seq e)

-- The loop of `Recent` from the `i`-th retained event on.
unfoldable pub recent_from : Hub → ℕ → ℕ → List Event
recent_from h zero i = []
recent_from h (suc left) i =
    get_or h.ring ((h.start + i) % h.capacity) zero_event ∷ recent_from h left (i + 1)

unfoldable pub recent : Hub → List Event
recent h = recent_from h h.count 0
