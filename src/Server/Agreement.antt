-- ===== src/Server/Agreement.antt =====
-- internal/server/server.go: a streamed answer, put together by the client, is the answer that the
-- other path gives in one piece.
use devin2proxy.Prelude.{
  ℕ, ◌≡◌, refl, sym, ◌∙◌, subst, Bool, true, false, inl, inr, List, [], ◌∷◌, ◌++◌, if◌then◌else◌,
  Bytes, arith, Bool-cases, if_true, if_false,
}
use devin2proxy.Errors.{GoError}
use devin2proxy.Wire.Response.{GetChatMessageResponse}
use devin2proxy.Openai.ToolCalls.Merge.{arguments_of}
use devin2proxy.Server.Relay.{
  Feed, ContextState, Progress, begin, is_errored, text_of, advance, role, done, stop_failed,
  Writer, emit, send_chunk, send_end, End, aborted, complete, failed, end_stream, send_failure,
  stream_loop, stream_chunks, Completion, completed, answered_stop, conclude, whole_loop,
  write_whole_completion,
}
use devin2proxy.Server.Collected.{
  completed_inj, no_answer, Collected, collect_event, collect, Delivers, Wrote, so_far, emit-Wrote,
  send_chunk-Wrote, of_end,
}

module _ (fails : ℕ → Bool) (well : (n : ℕ) → fails n ≡ false) where
  module _ (include_usage : Bool) (ctx : ContextState) (last : GoError) (answer : Completion) where
    loop : List GetChatMessageResponse → Writer → Progress → End × Writer
    loop chunks w p = stream_loop fails include_usage ctx last chunks w p

    finish_loop : Writer → Progress → End × Writer
    finish_loop w p = (complete, send_end fails include_usage w p)

    loop-nil :
        (w : Writer) (p : Progress)
        → w.broken ≡ false
        → last.eof ≡ true
        → loop [] w p ≡ finish_loop w p
    unfolding loop finish_loop stream_loop end_stream
    loop-nil w p alive over =
        if_false w.broken (aborted, w) (end_stream fails include_usage w p ctx last) alive
        ∙ if_true last.eof (complete, send_end fails include_usage w p)
            (send_failure fails w ctx last) over

    loop-cons :
        (c : GetChatMessageResponse) (chunks : List GetChatMessageResponse) (w : Writer)
        (p : Progress)
        → w.broken ≡ false
        → is_errored c ≡ false
        → loop (c ∷ chunks) w p ≡ (
            if (advance p c).filter.stopped
            then finish_loop (send_chunk fails w p c) (advance p c)
            else loop chunks (send_chunk fails w p c) (advance p c))
    unfolding loop finish_loop stream_loop
    loop-cons c chunks w p alive good =
        if_false w.broken (aborted, w) _ alive
        ∙ if_false (is_errored c) (failed, emit fails (emit fails w stop_failed) done) _ good

    whole-cons :
        (c : GetChatMessageResponse) (chunks : List GetChatMessageResponse) (text thoughts : Bytes)
        (p : Progress)
        → is_errored c ≡ false
        → whole_loop ctx last (c ∷ chunks) text thoughts p ≡ (
            if (advance p c).filter.stopped
            then completed
                (conclude (text ++ text_of p c) (thoughts ++ c.delta_thinking) (advance p c))
            else whole_loop ctx last chunks
                (text ++ text_of p c)
                (thoughts ++ c.delta_thinking)
                (advance p c))
    unfolding whole_loop
    whole-cons c chunks text thoughts p good = if_false (is_errored c) answered_stop _ good

    stream_loop-Delivers :
        (chunks : List GetChatMessageResponse) (w : Writer) (text thoughts : Bytes) (p : Progress)
        → Wrote w (so_far text thoughts p)
        → whole_loop ctx last chunks text thoughts p ≡ completed answer
        → Delivers answer (loop chunks w p)
    unfolding whole_loop finish_loop
    stream_loop-Delivers [] w text thoughts p v e = elim (Bool-cases last.eof) [
      | inl over ↦
          subst (Delivers answer) (sym (loop-nil w p v.alive over))
            (of_end fails well include_usage w text thoughts p answer v (ground (arith, e, over)))
      | inr broke ↦ absurd (no_answer ctx last answer (ground (arith, e, broke)))
    ]
    stream_loop-Delivers (c ∷ chunks) w text thoughts p v e =
        let v' = send_chunk-Wrote fails well w text thoughts p c v in
        let p' = advance p c in
        let w' = send_chunk fails w p c in
        let text' = text ++ text_of p c in
        let thoughts' = thoughts ++ c.delta_thinking in
        elim (Bool-cases (is_errored c)) [
          | inl bad ↦ absurd (ground (arith, e, bad))
          | inr good ↦
              let next = loop-cons c chunks w p v.alive good in
              let whole = whole-cons c chunks text thoughts p good in
              elim (Bool-cases p'.filter.stopped) [
                | inl cut ↦
                    subst (Delivers answer) (sym (next ∙ if_true p'.filter.stopped _ _ cut)) (
                      of_end fails well include_usage w' text' thoughts' p' answer v' (
                        completed_inj _ answer
                          (sym (if_true p'.filter.stopped _ _ cut) ∙ sym whole ∙ e)))
                | inr on ↦
                    subst (Delivers answer) (sym (next ∙ if_false p'.filter.stopped _ _ on)) (
                      stream_loop-Delivers chunks w' text' thoughts' p' v'
                        (sym (if_false p'.filter.stopped _ _ on) ∙ sym whole ∙ e))
              ]
        ]

-- Where the path for whole answers ends with an answer, the streaming path, over the same stream and
-- with a client to whom every write succeeds, ends well, and its content, reasoning and tool call
-- arguments put together, its finish reason and its end mark are those of that answer.
pub stream_chunks-Delivers :
    (fails : ℕ → Bool) (include_usage : Bool) (ctx : ContextState) (stops : List Bytes)
    (feed : Feed) (answer : Completion)
    → ((n : ℕ) → fails n ≡ false)
    → write_whole_completion ctx stops feed ≡ completed answer
    → Delivers answer (stream_chunks fails include_usage ctx stops feed)
unfolding stream_chunks write_whole_completion collect_event arguments_of loop collect
stream_chunks-Delivers fails include_usage ctx stops feed answer well e =
    let empty : Writer = record { sent = []; broken = false } in
    let nothing : Collected = record {
      text = [];
      thoughts = [];
      arguments = [];
      finish = [];
      ended = false;
    } in
    stream_loop-Delivers fails well include_usage ctx feed.last answer feed.chunks
      (emit fails empty role) [] [] (begin stops)
      (emit-Wrote fails well empty nothing role (record { alive = refl; collected = refl })) e
