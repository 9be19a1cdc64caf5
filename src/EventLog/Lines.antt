-- ===== src/EventLog/Lines.antt =====
-- internal/eventlog/eventlog.go: `Write`, which takes the lines of the standard logger. `parse_time` is
-- `time.ParseInLocation` with the logger's layout, `to_lower` is `strings.ToLower`.
use devin2proxy.Prelude.{
  ℕ, ◌+◌, ◌≡◌, refl, inl, inr, Bool, true, false, ◌&&◌, ◌||◌, Option, none, some, List, [], ◌∷◌,
  ltb, ◌==◌, if◌then◌else◌, length, take, drop, get_or, Bytes, bytes_eq, codes, index, split_at,
  trim_right, trim_space, Bool-cases,
}
use devin2proxy.EventLog.{Event, Hub, emit}
use devin2proxy.EventLog.History.{HubWf, recent-emit}

-- The length of "2006/01/02 15:04:05".
abbrev pub layout_length : ℕ
layout_length = 19

unfoldable pub split_log_time : (Bytes → Option ℕ) → Bytes → ℕ × Bytes
split_log_time parse_time line =
    if ltb layout_length (length line) && get_or line layout_length 0 == 32
    then elim (parse_time (take layout_length line)) [
      | none ↦ (0, line)
      | some at ↦ (at, drop (layout_length + 1) line)
    ]
    else (0, line)

unfoldable pub contains : Bytes → Bytes → Bool
contains s part = elim (index s part) [ none ↦ false | some i ↦ true ]

unfoldable pub classify : (Bytes → Bytes) → Bytes → Bytes
unfolding contains
classify to_lower message =
    let lower = to_lower message in
    if contains lower (codes "warning")
      || contains lower (codes "unavailable")
      || contains lower (codes "no usable")
    then codes "warn"
    else if contains lower (codes "error")
        || contains lower (codes "failed")
        || contains lower (codes "refused")
        || contains lower (codes "rejected")
    then codes "error"
    else codes "info"

abbrev pub is_return : ℕ → Bool
is_return b = b == 13

-- What is emitted for a line.
unfoldable pub log_event : (Bytes → Option ℕ) → (Bytes → Bytes) → Bytes → Event
unfolding split_log_time classify
log_event parse_time to_lower line =
    let (at, message) = split_log_time parse_time line in
    record {
      seq = 0;
      time = at;
      kind = codes "log";
      level = classify to_lower message;
      details = message;
    }

-- The loop; `clock n` is the time of the `n`-th line.
unfoldable pub write_lines :
    (Bytes → Option ℕ) → (Bytes → Bytes) → (ℕ → ℕ) → ℕ → Hub → List Bytes → Hub
unfolding log_event emit
write_lines parse_time to_lower clock n h [] = h
write_lines parse_time to_lower clock n h (raw ∷ lines) =
    let line = trim_right is_return raw in
    let h' =
      if bytes_eq (trim_space line) []
      then h
      else emit h (log_event parse_time to_lower line) (clock n) in
    write_lines parse_time to_lower clock (n + 1) h' lines

unfoldable pub write : (Bytes → Option ℕ) → (Bytes → Bytes) → (ℕ → ℕ) → Hub → Bytes → ℕ × Hub
unfolding write_lines
write parse_time to_lower clock h p =
    (length p, write_lines parse_time to_lower clock 0 h (split_at 10 p))

module _ (parse_time : Bytes → Option ℕ) (to_lower : Bytes → Bytes) (clock : ℕ → ℕ) where
  write_lines-HubWf :
      (lines : List Bytes) (n : ℕ) (h : Hub)
      → HubWf h
      → HubWf (write_lines parse_time to_lower clock n h lines)
  unfolding write_lines
  write_lines-HubWf [] n h v = v
  write_lines-HubWf (raw ∷ lines) n h v =
      let line = trim_right is_return raw in
      elim (Bool-cases (bytes_eq (trim_space line) [])) [
        | inl blank ↦ rw blank (write_lines-HubWf lines (n + 1) h v)
        | inr full ↦
            let e = log_event parse_time to_lower line in
            rw full
              (write_lines-HubWf lines (n + 1) (emit h e (clock n)) (recent-emit h e (clock n) v).1)
      ]

  -- Whatever is written to the log, the ring stays well-formed and the whole input counts as taken.
  pub write-HubWf :
      (h : Hub) (p : Bytes)
      → HubWf h
      → HubWf (write parse_time to_lower clock h p).1
        × ((write parse_time to_lower clock h p).0 ≡ length p)
  unfolding write
  write-HubWf h p v = (write_lines-HubWf (split_at 10 p) 0 h v, refl)
