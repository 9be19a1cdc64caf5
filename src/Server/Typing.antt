-- ===== src/Server/Typing.antt =====
-- internal/server/server.go: a streamed text completion, put together by the client, is the answer of
-- the other path, the echo of the prompt included.
use devin2proxy.Prelude.{
  ℕ, ◌≡◌, refl, sym, ap, ◌∙◌, subst, Bool, true, false, Option, none, some, inl, inr, List, [], ◌∷◌,
  ◌++◌, if◌then◌else◌, Bytes, append-nil, append_assoc, arith, Bool-cases, if_true, if_false,
}
use devin2proxy.Errors.{GoError}
use devin2proxy.Wire.Response.{GetChatMessageResponse}
use devin2proxy.Openai.Stop.{flush}
use devin2proxy.Openai.ToolCalls.{usage_from_stats}
use devin2proxy.Openai.ToolCalls.Merge.{arguments_of}
use devin2proxy.Server.Relay.{
  Feed, ContextState, is_errored, done, content, finished, usage_totals, stop_failed, Writer, emit,
  emit_text, send_failure, End, aborted, complete, failed, Completion, completed, answered_stop,
}
use devin2proxy.Server.Collected.{
  Collected, collect_event, collect, seen, Delivers, Wrote, emit-Wrote, emit_text-Wrote,
  completed_inj, no_answer,
}
use devin2proxy.Server.Completions.{
  TextProgress, begin_text, passed_text, advance_text, settle_text, send_text_end, text_loop,
  stream_completion, echoed, conclude_text, whole_text_loop, whole_completion,
}

-- What is put together while the loops run in step.
abbrev typed : Option Bytes → Bytes → Collected
typed echo text = record {
  text = echoed echo text;
  thoughts = [];
  arguments = [];
  finish = [];
  ended = false;
}

echoed-append : (echo : Option Bytes) (a b : Bytes) → echoed echo a ++ b ≡ echoed echo (a ++ b)
echoed-append none a b = refl
echoed-append (some prompt) a b = append_assoc prompt a b

module _ (fails : ℕ → Bool) (well : (n : ℕ) → fails n ≡ false) (echo : Option Bytes) where
  typed-Wrote :
      (w : Writer) (text s : Bytes)
      → Wrote w (typed echo text)
      → Wrote (emit_text fails w content s) (typed echo (text ++ s))
  typed-Wrote w text s v =
      subst (λ t. Wrote (emit_text fails w content s) (record (typed echo text) { text = t }))
        (echoed-append echo text s) (emit_text-Wrote fails well w (typed echo text) s v)

  of_text_end :
      (include_usage : Bool) (w : Writer) (text : Bytes) (p : TextProgress) (answer : Completion)
      → Wrote w (typed echo text)
      → conclude_text echo text p ≡ answer
      → Delivers answer (complete, send_text_end fails include_usage w p)
  unfolding conclude_text send_text_end collect_event arguments_of
  of_text_end include_usage w text p answer v e =
      let (tail, filter) = flush p.filter in
      let reason = settle_text (record p { filter = filter }) in
      let w1 = emit_text fails w content tail in
      let a1 = typed echo (text ++ tail) in
      let w2 = emit fails w1 (finished reason) in
      let a2 : Collected = record a1 { finish = reason } in
      let v2 = emit-Wrote fails well w1 a1 (finished reason) (typed-Wrote w text tail v) in
      record { ends = refl; delivers = (of_usage w2 a2 v2 include_usage).collected ∙ ap seen e }
    where
      of_usage :
          (w : Writer) (a : Collected)
          → Wrote w a
          → (b : Bool)
          → Wrote
              (emit fails
                (if b then emit fails w (usage_totals (usage_from_stats p.usage)) else w)
                done)
              (record a { ended = true })
      of_usage w a v false = emit-Wrote fails well w a done v
      of_usage w a v true =
          emit-Wrote fails well (emit fails w (usage_totals (usage_from_stats p.usage))) a done
            (emit-Wrote fails well w a (usage_totals (usage_from_stats p.usage)) v)

  module _ (include_usage : Bool) (ctx : ContextState) (last : GoError) (answer : Completion) where
    loop : List GetChatMessageResponse → Writer → TextProgress → End × Writer
    loop chunks w p = text_loop fails include_usage ctx last chunks w p

    finish_loop : Writer → TextProgress → End × Writer
    finish_loop w p = (complete, send_text_end fails include_usage w p)

    loop-nil :
        (w : Writer) (p : TextProgress)
        → w.broken ≡ false
        → last.eof ≡ true
        → loop [] w p ≡ finish_loop w p
    unfolding loop finish_loop text_loop
    loop-nil w p alive over =
        if_false w.broken (aborted, w) _ alive
        ∙ if_true last.eof (complete, send_text_end fails include_usage w p)
            (send_failure fails w ctx last) over

    loop-cons :
        (c : GetChatMessageResponse) (chunks : List GetChatMessageResponse) (w : Writer)
        (p : TextProgress)
        → w.broken ≡ false
        → is_errored c ≡ false
        → let p' = advance_text p c in
          let w' = emit_text fails w content (passed_text p c) in
          loop (c ∷ chunks) w p
          ≡ (if p'.filter.stopped then finish_loop w' p' else loop chunks w' p')
    unfolding loop finish_loop text_loop
    loop-cons c chunks w p alive good =
        if_false w.broken (aborted, w) _ alive
        ∙ if_false (is_errored c) (failed, emit fails (emit fails w stop_failed) done) _ good

    whole-cons :
        (c : GetChatMessageResponse) (chunks : List GetChatMessageResponse) (text : Bytes)
        (p : TextProgress)
        → is_errored c ≡ false
        → let p' = advance_text p c in
          let text' = text ++ passed_text p c in
          whole_text_loop ctx echo last (c ∷ chunks) text p ≡ (
            if p'.filter.stopped
            then completed (conclude_text echo text' p')
            else whole_text_loop ctx echo last chunks text' p')
    unfolding whole_text_loop
    whole-cons c chunks text p good = if_false (is_errored c) answered_stop _ good

    text_loop-Delivers :
        (chunks : List GetChatMessageResponse) (w : Writer) (text : Bytes) (p : TextProgress)
        → Wrote w (typed echo text)
        → whole_text_loop ctx echo last chunks text p ≡ completed answer
        → Delivers answer (loop chunks w p)
    unfolding whole_text_loop finish_loop
    text_loop-Delivers [] w text p v e = elim (Bool-cases last.eof) [
      | inl over ↦ subst (Delivers answer) (sym (loop-nil w p v.alive over)) (
          of_text_end include_usage w text p answer v
            (completed_inj _ answer (sym (if_true last.eof _ _ over) ∙ e)))
      | inr broke ↦ absurd (no_answer ctx last answer (sym (if_false last.eof _ _ broke) ∙ e))
    ]
    text_loop-Delivers (c ∷ chunks) w text p v e =
        let p' = advance_text p c in
        let w' = emit_text fails w content (passed_text p c) in
        let text' = text ++ passed_text p c in
        let v' = typed-Wrote w text (passed_text p c) v in
        elim (Bool-cases (is_errored c)) [
          | inl bad ↦ absurd (ground (arith, e, bad))
          | inr good ↦
              let next = loop-cons c chunks w p v.alive good in
              let whole = whole-cons c chunks text p good in
              elim (Bool-cases p'.filter.stopped) [
                | inl cut ↦
                    subst (Delivers answer) (sym (next ∙ if_true p'.filter.stopped _ _ cut)) (
                      of_text_end include_usage w' text' p' answer v' (
                        completed_inj _ answer
                          (sym (if_true p'.filter.stopped _ _ cut) ∙ sym whole ∙ e)))
                | inr on ↦
                    subst (Delivers answer) (sym (next ∙ if_false p'.filter.stopped _ _ on)) (
                      text_loop-Delivers chunks w' text' p' v'
                        (sym (if_false p'.filter.stopped _ _ on) ∙ sym whole ∙ e))
              ]
        ]

-- Where the path in one piece ends with an answer, the streaming path, over the same stream and with
-- a client to whom every write succeeds, ends well, and its texts put together, the echo of the
-- prompt before them, its finish reason and its end mark are those of that answer.
pub stream_completion-Delivers :
    (fails : ℕ → Bool) (include_usage : Bool) (ctx : ContextState) (stops : List Bytes)
    (echo : Option Bytes) (feed : Feed) (answer : Completion)
    → ((n : ℕ) → fails n ≡ false)
    → whole_completion ctx stops echo feed ≡ completed answer
    → Delivers answer (stream_completion fails include_usage ctx stops echo feed)
unfolding stream_completion whole_completion loop collect
stream_completion-Delivers fails include_usage ctx stops echo feed answer well e = of_echo echo e
  where
    empty : Writer
    empty = record { sent = []; broken = false }

    of_echo :
        (echo : Option Bytes)
        → whole_completion ctx stops echo feed ≡ completed answer
        → Delivers answer (stream_completion fails include_usage ctx stops echo feed)
    of_echo none e =
        text_loop-Delivers fails well none include_usage ctx feed.last answer feed.chunks empty []
          (begin_text stops) (record { alive = refl; collected = refl }) e
    of_echo (some prompt) e =
        text_loop-Delivers fails well (some prompt) include_usage ctx feed.last answer feed.chunks
          (emit fails empty (content prompt)) [] (begin_text stops)
          (subst
            (λ t. Wrote (emit fails empty (content prompt)) (record (typed none []) { text = t }))
            (sym (append-nil prompt))
            (emit-Wrote fails well empty (typed none []) (content prompt)
              (record { alive = refl; collected = refl })))
          e
