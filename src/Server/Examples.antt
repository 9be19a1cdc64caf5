-- ===== src/Server/Examples.antt =====
-- Runs of the server's relays and of its failover, and their theorems at concrete inputs.
use devin2proxy.Prelude.{
  ℕ, ◌≡◌, refl, true, false, none, some, [], ◌∷◌, codes, ltb, if◌then◌else◌, trim, before_byte,
  index,
}
use devin2proxy.Errors.{GoError, is_context_failure}
use devin2proxy.Wire.Response.{GetChatMessageResponse, no_response}
use devin2proxy.Client.Stream.{plain_error, eof_error}
use devin2proxy.Openai.Stop
use devin2proxy.Openai.ToolCalls
use devin2proxy.Rotate
use devin2proxy.Pool.Accounts.{Pool, new_pool, clean_token}
use devin2proxy.Pool.Cooldowns.{cooldown, report_status}
use devin2proxy.Pool.Histories.{new_pool-IsConsistent}
use devin2proxy.Server.Refusals.{is_account_refusal}
use devin2proxy.Server.Classes.{is_some, cooldown-is_account_refusal}
use devin2proxy.Server.Relay.{
  Feed, running, Completion, completed, write_whole_completion, stream_chunks,
}
use devin2proxy.Server.Collected.{Delivers}
use devin2proxy.Server.Completions.{stream_completion, whole_completion}
use devin2proxy.Server.Typing.{stream_completion-Delivers}
use devin2proxy.Server.Agreement.{stream_chunks-Delivers}
use devin2proxy.Server.Failover.{Turn, unsent, opened, served, attempts, get_chat_message}
use devin2proxy.Server.Asking.{IsSettled}
use devin2proxy.Server.Turns.{get_chat_message-IsSettled}

abbrev chunk : GetChatMessageResponse
chunk = record no_response { delta_text = codes "hello"; delta_thinking = codes "hm" }

-- The stop sequence is cut off, and with it what follows.
abbrev feed : Feed
feed = record {
  chunks = chunk ∷ record chunk { delta_text = codes "END x" } ∷ [];
  last = eof_error;
}

abbrev answer : Completion
answer = record {
  text = codes "hello";
  thoughts = codes "hmhm";
  calls = [];
  finish = codes "stop";
  usage = none;
}

in_one_piece : write_whole_completion running (codes "END" ∷ []) feed ≡ completed answer
unfolding write_whole_completion Stop.write Stop.new_stop_filter Stop.emit_pending
    Stop.index_of_stop Stop.index_of_stop_from index Stop.hold_back Stop.align_cut Stop.longest_of
    Stop.flush ToolCalls.add_deltas ToolCalls.usage_from_stats
in_one_piece = refl

stream_chunks-Delivers_example :
    Delivers answer (stream_chunks (λ n. false) true running (codes "END" ∷ []) feed)
stream_chunks-Delivers_example =
    stream_chunks-Delivers (λ n. false) true running (codes "END" ∷ []) feed answer (λ n. refl)
      in_one_piece

abbrev typed_answer : Completion
typed_answer = record {
  text = codes "say hello";
  thoughts = [];
  calls = [];
  finish = codes "stop";
  usage = none;
}

typed_in_one_piece :
    whole_completion running (codes "END" ∷ []) (some (codes "say ")) feed ≡ completed typed_answer
unfolding whole_completion Stop.write Stop.new_stop_filter Stop.emit_pending Stop.index_of_stop
    Stop.index_of_stop_from index Stop.hold_back Stop.align_cut Stop.longest_of Stop.flush
    ToolCalls.add_deltas ToolCalls.usage_from_stats
typed_in_one_piece = refl

stream_completion-Delivers_example :
    Delivers typed_answer
      (stream_completion (λ n. false) false running (codes "END" ∷ []) (some (codes "say ")) feed)
stream_completion-Delivers_example =
    stream_completion-Delivers (λ n. false) false running (codes "END" ∷ []) (some (codes "say "))
      feed typed_answer (λ n. refl) typed_in_one_piece

abbrev refused : GoError
refused = record plain_error { http = some (record { status = 429; body = [] }) }

cooldown-is_account_refusal_example :
    is_some (cooldown (report_status 0 (some refused))) ≡ is_account_refusal refused
unfolding is_context_failure
cooldown-is_account_refusal_example = cooldown-is_account_refusal refused refl

abbrev two : Pool
two = new_pool (codes "k1" ∷ codes "k2" ∷ []) []

-- The first account is refused, the second one answers.
abbrev world : ℕ → Turn
world n = record {
  picked_at = 10;
  loads = false;
  builds = true;
  gave_up = false;
  reported_at = 20;
  refreshed_at = 21;
  call = if ltb n 1 then unsent refused else opened none;
}

second_account : (get_chat_message world two).0 ≡ served (some 1)
unfolding get_chat_message new_pool trim before_byte clean_token Rotate.pick Rotate.cool_off
second_account = refl

get_chat_message-IsSettled_example :
    IsSettled world (attempts two) (get_chat_message world two).0 (get_chat_message world two).1
get_chat_message-IsSettled_example =
    get_chat_message-IsSettled world two (new_pool-IsConsistent (codes "k1" ∷ codes "k2" ∷ []) [])
