-- ===== src/Server/Completions.antt =====
-- internal/server/server.go: the legacy text completions, `streamCompletion` and the answer in one
-- piece of `handleCompletions`, from the open stream on. The events are those of the chat answers:
-- `content` is a choice with a text and no finish reason, `finished` one with the empty text.
use devin2proxy.Prelude.{
  ℕ, Bool, false, ◌||◌, Option, none, some, List, [], ◌∷◌, ◌++◌, if◌then◌else◌, Bytes, codes,
}
use devin2proxy.Errors.{GoError}
use devin2proxy.Wire.Response.{GetChatMessageResponse}
use devin2proxy.Wire.Configuration.{ModelUsageStats}
use devin2proxy.Openai.Stop
use devin2proxy.Openai.Stop.{StopFilter, new_stop_filter, flush}
use devin2proxy.Openai.ToolCalls.{finish_reason, usage_from_stats, is_empty_text}
use devin2proxy.Server.Relay.{
  Feed, ContextState, is_errored, newer_usage, done, content, finished, usage_totals, stop_failed,
  Writer, emit, emit_text, send_failure, End, aborted, complete, failed, Completion, Answer,
  completed, answered_stop, answer_failure,
}

-- What both loops keep.
pub record TextProgress : Type 0 where
  pub filter : StopFilter
  pub usage : Option ModelUsageStats
  pub finish : Bytes

abbrev pub begin_text : List Bytes → TextProgress
begin_text stops = record { filter = new_stop_filter stops; usage = none; finish = [] }

abbrev pub passed_text : TextProgress → GetChatMessageResponse → Bytes
passed_text p c = (Stop.write p.filter c.delta_text).0

unfoldable pub advance_text : TextProgress → GetChatMessageResponse → TextProgress
advance_text p c = record {
  filter = (Stop.write p.filter c.delta_text).1;
  usage = newer_usage p.usage c.usage;
  finish = if c.stop_reason_set then finish_reason c.stop_reason else p.finish;
}

-- The finish reason behind the loop.
unfoldable pub settle_text : TextProgress → Bytes
settle_text p = if p.filter.stopped || is_empty_text p.finish then codes "stop" else p.finish

-- Behind the loop: the held back text, the finish, the usage and the mark of the end.
unfoldable pub send_text_end : (ℕ → Bool) → Bool → Writer → TextProgress → Writer
unfolding emit settle_text
send_text_end fails include_usage w p =
    let (tail, filter) = flush p.filter in
    let w1 = emit_text fails w content tail in
    let w2 = emit fails w1 (finished (settle_text (record p { filter = filter }))) in
    let w3 =
      if include_usage then emit fails w2 (usage_totals (usage_from_stats p.usage)) else w2 in
    emit fails w3 done

-- The loop of `streamCompletion`.
unfoldable pub text_loop :
    (ℕ → Bool)
    → Bool
    → ContextState
    → GoError
    → List GetChatMessageResponse
    → Writer
    → TextProgress
    → End × Writer
unfolding send_failure advance_text send_text_end
text_loop fails include_usage ctx last [] w p =
    if w.broken
    then (aborted, w)
    else if last.eof
    then (complete, send_text_end fails include_usage w p)
    else send_failure fails w ctx last
text_loop fails include_usage ctx last (c ∷ chunks) w p =
    let p' = advance_text p c in
    let w' = emit_text fails w content (passed_text p c) in
    let rest = text_loop fails include_usage ctx last chunks w' p' in
    if w.broken
    then (aborted, w)
    else if is_errored c
    then (failed, emit fails (emit fails w stop_failed) done)
    else if p'.filter.stopped
    then (complete, send_text_end fails include_usage w' p')
    else rest

-- `streamCompletion`; `echo` is the prompt if it is to be echoed.
unfoldable pub stream_completion :
    (ℕ → Bool) → Bool → ContextState → List Bytes → Option Bytes → Feed → End × Writer
unfolding text_loop emit
stream_completion fails include_usage ctx stops echo feed =
    let empty : Writer = record { sent = []; broken = false } in
    let w : Writer = elim echo [ none ↦ empty | some prompt ↦ emit fails empty (content prompt) ] in
    text_loop fails include_usage ctx feed.last feed.chunks w (begin_text stops)

abbrev pub echoed : Option Bytes → Bytes → Bytes
echoed none text = text
echoed (some prompt) text = prompt ++ text

unfoldable pub conclude_text : Option Bytes → Bytes → TextProgress → Completion
unfolding settle_text
conclude_text echo text p =
    let (tail, filter) = flush p.filter in
    record {
      text = echoed echo (text ++ tail);
      thoughts = [];
      calls = [];
      finish = settle_text (record p { filter = filter });
      usage = usage_from_stats p.usage;
    }

-- The loop of `handleCompletions`, with the text so far.
unfoldable pub whole_text_loop :
    ContextState
    → Option Bytes
    → GoError
    → List GetChatMessageResponse
    → Bytes
    → TextProgress
    → Answer
unfolding conclude_text advance_text
whole_text_loop ctx echo last [] text p =
    if last.eof then completed (conclude_text echo text p) else answer_failure ctx last
whole_text_loop ctx echo last (c ∷ chunks) text p =
    let p' = advance_text p c in
    let text' = text ++ passed_text p c in
    let rest = whole_text_loop ctx echo last chunks text' p' in
    if is_errored c
    then answered_stop
    else if p'.filter.stopped
    then completed (conclude_text echo text' p')
    else rest

unfoldable pub whole_completion : ContextState → List Bytes → Option Bytes → Feed → Answer
unfolding whole_text_loop
whole_completion ctx stops echo feed =
    whole_text_loop ctx echo feed.last feed.chunks [] (begin_text stops)
