-- ===== src/Server/Relay.antt =====
-- internal/server/server.go: `streamChunks` and `writeWholeCompletion`. What `Recv` yields is a `Feed`:
-- chunks, then the error that ends it. The id that is drawn for a tool call without one and the trace
-- are left out; what the account pool learns is in Server/Serving.antt.
use devin2proxy.Prelude.{
  ℕ, Bool, true, false, ◌&&◌, ◌||◌, not, Option, none, some, List, [], ◌∷◌, ◌++◌, ◌==◌,
  if◌then◌else◌, length, Bytes, bytes_eq, codes,
}
use devin2proxy.Errors.{GoError}
use devin2proxy.Wire.Response.{GetChatMessageResponse}
use devin2proxy.Wire.Configuration.{ModelUsageStats}
use devin2proxy.Openai.Stop
use devin2proxy.Openai.Stop.{StopFilter, new_stop_filter, flush}
use devin2proxy.Openai.ToolCalls.{
  ToolCall, ToolCallUpdate, Usage, add_deltas, finish_reason, usage_from_stats, is_empty_text,
  no_calls,
}

pub record Feed : Type 0 where
  pub chunks : List GetChatMessageResponse
  pub last : GoError

-- `ctx.Err()` when a read has failed.
pub data ContextState : Type 0 where
  running timed_out client_gone : ContextState

-- `devin.StopError`
abbrev pub stop_error : ℕ
stop_error = 13

-- What both loops keep.
pub record Progress : Type 0 where
  pub filter : StopFilter
  pub tools : List ToolCall
  pub usage : Option ModelUsageStats
  pub finish : Bytes
  pub saw_text : Bool

abbrev pub begin : List Bytes → Progress
begin stops = record {
  filter = new_stop_filter stops;
  tools = [];
  usage = none;
  finish = [];
  saw_text = false;
}

abbrev pub is_errored : GetChatMessageResponse → Bool
is_errored c = c.stop_reason_set && c.stop_reason == stop_error

abbrev pub newer_usage : Option ModelUsageStats → Option ModelUsageStats → Option ModelUsageStats
newer_usage old none = old
newer_usage old (some u) = some u

-- The text that the filter lets through of a chunk.
unfoldable pub text_of : Progress → GetChatMessageResponse → Bytes
text_of p c = (Stop.write p.filter c.delta_text).0

unfoldable pub advance : Progress → GetChatMessageResponse → Progress
unfolding text_of
advance p c = record {
  filter = (Stop.write p.filter c.delta_text).1;
  tools = (add_deltas p.tools c.delta_tool_calls).1;
  usage = newer_usage p.usage c.usage;
  finish = if c.stop_reason_set then finish_reason c.stop_reason else p.finish;
  saw_text = p.saw_text || not (is_empty_text (text_of p c));
}

-- The two rules on `finish` behind the loop.
unfoldable pub settle : Progress → Bytes
settle p =
    let first =
      if p.filter.stopped
      then codes "stop"
      else if is_empty_text p.finish
      then (if no_calls p.tools then codes "stop" else codes "tool_calls")
      else p.finish in
    if not (no_calls p.tools) && bytes_eq first (codes "stop") && not p.filter.stopped
    then codes "tool_calls"
    else first

pub data Event : Type 0 where
  role done : Event
  tool_calls : List ToolCallUpdate → Event
  reasoning content : Bytes → Event
  finished : Bytes → Event
  usage_totals : Option Usage → Event
  -- the in-band errors: our own timeout, the backend's stop, and a failed stream
  timeout_error stop_failed : Event
  stream_error : GoError → Event

-- The `sseWriter`: what it has written, and whether a write has failed.
pub record Writer : Type 0 where
  pub sent : List Event
  pub broken : Bool

-- One event; `fails n` says whether the write behind `n` events fails.
unfoldable pub emit : (ℕ → Bool) → Writer → Event → Writer
emit fails w e =
    if w.broken
    then w
    else if fails (length w.sent)
    then record w { broken = true }
    else record w { sent = w.sent ++ (e ∷ []) }

abbrev pub emit_text : (ℕ → Bool) → Writer → (Bytes → Event) → Bytes → Writer
emit_text fails w event [] = w
emit_text fails w event (b ∷ s) = emit fails w (event (b ∷ s))

abbrev pub emit_calls : (ℕ → Bool) → Writer → List ToolCallUpdate → Writer
emit_calls fails w [] = w
emit_calls fails w (u ∷ updates) = emit fails w (tool_calls (u ∷ updates))

-- What a chunk adds to the stream.
unfoldable pub send_chunk : (ℕ → Bool) → Writer → Progress → GetChatMessageResponse → Writer
unfolding emit text_of
send_chunk fails w p c =
    let w1 = emit_calls fails w (add_deltas p.tools c.delta_tool_calls).0 in
    let w2 = emit_text fails w1 reasoning c.delta_thinking in
    emit_text fails w2 content (text_of p c)

-- How a relay ended.
pub data End : Type 0 where
  -- the client hung up while we were writing, and its context ended while we were reading
  aborted gone : End
  complete failed : End
  -- a failed stream, whose error goes to `reportQuotaRefusal`
  reported : GoError → End

abbrev pub send_usage : (ℕ → Bool) → Writer → Bool → Progress → Writer
send_usage fails w include_usage p =
    if include_usage then emit fails w (usage_totals (usage_from_stats p.usage)) else w

-- Behind the loop: the held back text, the finish, the usage and the mark of the end.
unfoldable pub send_end : (ℕ → Bool) → Bool → Writer → Progress → Writer
unfolding emit settle
send_end fails include_usage w p =
    let (tail, filter) = flush p.filter in
    let w1 = emit_text fails w content tail in
    let w2 = emit fails w1 (finished (settle (record p { filter = filter }))) in
    emit fails (send_usage fails w2 include_usage p) done

-- A read that failed with something other than `io.EOF`.
unfoldable pub send_failure : (ℕ → Bool) → Writer → ContextState → GoError → End × Writer
unfolding emit
send_failure fails w running err = (reported err, emit fails (emit fails w (stream_error err)) done)
send_failure fails w timed_out err = (failed, emit fails (emit fails w timeout_error) done)
send_failure fails w client_gone err = (gone, w)

unfoldable pub end_stream :
    (ℕ → Bool) → Bool → Writer → Progress → ContextState → GoError → End × Writer
unfolding send_end send_failure
end_stream fails include_usage w p ctx err =
    if err.eof then (complete, send_end fails include_usage w p) else send_failure fails w ctx err

-- The loop of `streamChunks`.
unfoldable pub stream_loop :
    (ℕ → Bool)
    → Bool
    → ContextState
    → GoError
    → List GetChatMessageResponse
    → Writer
    → Progress
    → End × Writer
unfolding end_stream send_chunk advance send_end
stream_loop fails include_usage ctx last [] w p =
    if w.broken then (aborted, w) else end_stream fails include_usage w p ctx last
stream_loop fails include_usage ctx last (c ∷ chunks) w p =
    let p' = advance p c in
    let w' = send_chunk fails w p c in
    let rest = stream_loop fails include_usage ctx last chunks w' p' in
    if w.broken
    then (aborted, w)
    else if is_errored c
    then (failed, emit fails (emit fails w stop_failed) done)
    else if p'.filter.stopped
    then (complete, send_end fails include_usage w' p')
    else rest

-- `streamChunks`
unfoldable pub stream_chunks : (ℕ → Bool) → Bool → ContextState → List Bytes → Feed → End × Writer
unfolding stream_loop emit
stream_chunks fails include_usage ctx stops feed =
    stream_loop fails include_usage ctx feed.last feed.chunks
      (emit fails (record { sent = []; broken = false }) role) (begin stops)

pub record Completion : Type 0 where
  pub text : Bytes
  pub thoughts : Bytes
  pub calls : List ToolCall
  pub finish : Bytes
  pub usage : Option Usage

pub data Answer : Type 0 where
  completed : Completion → Answer
  -- 504, and no answer to a client that has gone
  answered_timeout unanswered : Answer
  -- `writeUpstreamError` with the backend's stop, and with the failed stream's error
  answered_stop : Answer
  answered_error : GoError → Answer

abbrev pub answer_failure : ContextState → GoError → Answer
answer_failure running err = answered_error err
answer_failure timed_out err = answered_timeout
answer_failure client_gone err = unanswered

unfoldable pub conclude : Bytes → Bytes → Progress → Completion
unfolding settle
conclude text thoughts p =
    let (tail, filter) = flush p.filter in
    record {
      text = text ++ tail;
      thoughts = thoughts;
      calls = p.tools;
      finish = settle (record p { filter = filter });
      usage = usage_from_stats p.usage;
    }

-- The loop of `writeWholeCompletion`, with the text and the reasoning so far.
unfoldable pub whole_loop :
    ContextState → GoError → List GetChatMessageResponse → Bytes → Bytes → Progress → Answer
unfolding conclude advance text_of
whole_loop ctx last [] text thoughts p =
    if last.eof then completed (conclude text thoughts p) else answer_failure ctx last
whole_loop ctx last (c ∷ chunks) text thoughts p =
    let p' = advance p c in
    let text' = text ++ text_of p c in
    let thoughts' = thoughts ++ c.delta_thinking in
    let rest = whole_loop ctx last chunks text' thoughts' p' in
    if is_errored c
    then answered_stop
    else if p'.filter.stopped
    then completed (conclude text' thoughts' p')
    else rest

unfoldable pub write_whole_completion : ContextState → List Bytes → Feed → Answer
unfolding whole_loop
write_whole_completion ctx stops feed = whole_loop ctx feed.last feed.chunks [] [] (begin stops)
