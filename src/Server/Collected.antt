-- ===== src/Server/Collected.antt =====
-- internal/server/server.go: what a client puts together of the events of a streamed answer.
use devin2proxy.Prelude.{
  ℕ, ◌≡◌, ◌≢◌, refl, sym, ap, ◌∙◌, subst, Bool, true, false, List, [], ◌∷◌, ◌++◌, length, Bytes,
  append-nil,
}
use devin2proxy.Errors.{GoError}
use devin2proxy.Wire.Response.{GetChatMessageResponse}
use devin2proxy.Openai.Stop.{flush}
use devin2proxy.Openai.ToolCalls.{ToolCallUpdate, add_deltas, usage_from_stats}
use devin2proxy.Openai.ToolCalls.Merge.{assemble, arguments_of, assemble-add_deltas}
use devin2proxy.Server.Relay.{
  completed, answer_failure, ContextState, Progress, text_of, advance, settle, Event, role, done,
  tool_calls, reasoning, content, finished, usage_totals, timeout_error, stop_failed, stream_error,
  Writer, emit, emit_text, emit_calls, send_chunk, send_usage, send_end, End, complete, Completion,
  conclude,
}

-- What a client has put together of the events so far.
pub record Collected : Type 0 where
  pub text : Bytes
  pub thoughts : Bytes
  pub arguments : List Bytes
  pub finish : Bytes
  pub ended : Bool

unfoldable pub collect_event : Collected → Event → Collected
collect_event a (tool_calls updates) = record a { arguments = assemble a.arguments updates }
collect_event a (reasoning s) = record a { thoughts = a.thoughts ++ s }
collect_event a (content s) = record a { text = a.text ++ s }
collect_event a (finished reason) = record a { finish = reason }
collect_event a done = record a { ended = true }
collect_event a role = a
collect_event a (usage_totals u) = a
collect_event a timeout_error = a
collect_event a stop_failed = a
collect_event a (stream_error e) = a

unfoldable pub collect_from : Collected → List Event → Collected
unfolding collect_event
collect_from a [] = a
collect_from a (e ∷ events) = collect_from (collect_event a e) events

unfoldable pub collect : List Event → Collected
unfolding collect_from
collect =
    collect_from (record { text = []; thoughts = []; arguments = []; finish = []; ended = false })

collect_from-append :
    (a : Collected) (xs : List Event) (e : Event)
    → collect_from a (xs ++ (e ∷ [])) ≡ collect_event (collect_from a xs) e
unfolding collect_from
collect_from-append a [] e = refl
collect_from-append a (x ∷ xs) e = collect_from-append (collect_event a x) xs e

collect-append :
    (xs : List Event) (e : Event) → collect (xs ++ (e ∷ [])) ≡ collect_event (collect xs) e
unfolding collect
collect-append xs e = collect_from-append _ xs e

-- The client's view of an answer in one piece.
abbrev pub seen : Completion → Collected
seen answer = record {
  text = answer.text;
  thoughts = answer.thoughts;
  arguments = arguments_of answer.calls;
  finish = answer.finish;
  ended = true;
}

-- A relay that ended well, with an answer that was put together.
pub record Delivers (answer : Completion) (r : End × Writer) : Type 0 where
  pub ends : r.0 ≡ complete
  pub delivers : collect r.1.sent ≡ seen answer

-- A writer that is not broken, and what its events put together.
pub record Wrote (w : Writer) (a : Collected) : Type 0 where
  pub alive : w.broken ≡ false
  pub collected : collect w.sent ≡ a

-- What is put together while the loops run in step.
abbrev pub so_far : Bytes → Bytes → Progress → Collected
so_far text thoughts p = record {
  text = text;
  thoughts = thoughts;
  arguments = arguments_of p.tools;
  finish = [];
  ended = false;
}

module _ (fails : ℕ → Bool) (well : (n : ℕ) → fails n ≡ false) where
  pub emit-Wrote :
      (w : Writer) (a : Collected) (e : Event)
      → Wrote w a
      → Wrote (emit fails w e) (collect_event a e)
  unfolding emit
  emit-Wrote w a e v = rw v.alive (
      rw (well (length w.sent)) (record {
        alive = refl;
        collected = collect-append w.sent e ∙ ap (λ x. collect_event x e) v.collected;
      }))

  pub emit_text-Wrote :
      (w : Writer) (a : Collected) (s : Bytes)
      → Wrote w a
      → Wrote (emit_text fails w content s) (record a { text = a.text ++ s })
  unfolding collect_event
  emit_text-Wrote w a [] v =
      subst (λ t. Wrote w (record a { text = t })) (sym (append-nil a.text)) v
  emit_text-Wrote w a (b ∷ s) v = emit-Wrote w a (content (b ∷ s)) v

  emit_thoughts-Wrote :
      (w : Writer) (a : Collected) (s : Bytes)
      → Wrote w a
      → Wrote (emit_text fails w reasoning s) (record a { thoughts = a.thoughts ++ s })
  unfolding collect_event
  emit_thoughts-Wrote w a [] v =
      subst (λ t. Wrote w (record a { thoughts = t })) (sym (append-nil a.thoughts)) v
  emit_thoughts-Wrote w a (b ∷ s) v = emit-Wrote w a (reasoning (b ∷ s)) v

  emit_calls-Wrote :
      (w : Writer) (a : Collected) (updates : List ToolCallUpdate)
      → Wrote w a
      → Wrote (emit_calls fails w updates) (record a { arguments = assemble a.arguments updates })
  unfolding collect_event assemble
  emit_calls-Wrote w a [] v = v
  emit_calls-Wrote w a (u ∷ updates) v = emit-Wrote w a (tool_calls (u ∷ updates)) v

  pub send_chunk-Wrote :
      (w : Writer) (text thoughts : Bytes) (p : Progress) (c : GetChatMessageResponse)
      → Wrote w (so_far text thoughts p)
      → Wrote
          (send_chunk fails w p c)
          (so_far (text ++ text_of p c) (thoughts ++ c.delta_thinking) (advance p c))
  unfolding send_chunk advance
  send_chunk-Wrote w text thoughts p c v =
      let (updates, tools) = add_deltas p.tools c.delta_tool_calls in
      let a = so_far text thoughts p in
      let w1 = emit_calls fails w updates in
      let a1 : Collected = record a { arguments = assemble (arguments_of p.tools) updates } in
      let w2 = emit_text fails w1 reasoning c.delta_thinking in
      let a2 : Collected = record a1 { thoughts = thoughts ++ c.delta_thinking } in
      let v1 = emit_calls-Wrote w a updates v in
      let v2 = emit_thoughts-Wrote w1 a1 c.delta_thinking v1 in
      let v3 = emit_text-Wrote w2 a2 (text_of p c) v2 in
      subst
        (λ args.
          Wrote (emit_text fails w2 content (text_of p c))
            (record a2 { text = text ++ text_of p c; arguments = args }))
        (assemble-add_deltas p.tools c.delta_tool_calls) v3

  send_usage-Wrote :
      (include_usage : Bool) (w : Writer) (a : Collected) (p : Progress)
      → Wrote w a
      → Wrote (send_usage fails w include_usage p) a
  unfolding collect_event
  send_usage-Wrote true w a p v = emit-Wrote w a (usage_totals (usage_from_stats p.usage)) v
  send_usage-Wrote false w a p v = v

  send_end-Wrote :
      (include_usage : Bool) (w : Writer) (text thoughts : Bytes) (p : Progress)
      → Wrote w (so_far text thoughts p)
      → Wrote (send_end fails include_usage w p) (record {
        text = (conclude text thoughts p).text;
        thoughts = thoughts;
        arguments = arguments_of p.tools;
        finish = (conclude text thoughts p).finish;
        ended = true;
      })
  unfolding send_end conclude collect_event
  send_end-Wrote include_usage w text thoughts p v =
      let (tail, filter) = flush p.filter in
      let reason = settle (record p { filter = filter }) in
      let a = so_far text thoughts p in
      let w1 = emit_text fails w content tail in
      let a1 : Collected = record a { text = text ++ tail } in
      let w2 = emit fails w1 (finished reason) in
      let a2 : Collected = record a1 { finish = reason } in
      let w3 = send_usage fails w2 include_usage p in
      let v2 = emit-Wrote w1 a1 (finished reason) (emit_text-Wrote w a tail v) in
      emit-Wrote w3 a2 done (send_usage-Wrote include_usage w2 a2 p v2)

  pub of_end :
      (include_usage : Bool) (w : Writer) (text thoughts : Bytes) (p : Progress)
      (answer : Completion)
      → Wrote w (so_far text thoughts p)
      → conclude text thoughts p ≡ answer
      → Delivers answer (complete, send_end fails include_usage w p)
  unfolding conclude
  of_end include_usage w text thoughts p answer v e = record {
    ends = refl;
    delivers = (send_end-Wrote include_usage w text thoughts p v).collected ∙ ap seen e;
  }

pub completed_inj : (a b : Completion) → completed a ≡ completed b → a ≡ b
completed_inj a b e = cc

pub no_answer :
    (ctx : ContextState) (last : GoError) (answer : Completion)
    → answer_failure ctx last ≢ completed answer
no_answer ContextState.running last answer e = cc
no_answer ContextState.timed_out last answer e = cc
no_answer ContextState.client_gone last answer e = cc
