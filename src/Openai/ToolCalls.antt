-- ===== src/Openai/ToolCalls.antt =====
-- internal/openai/translate.go: the tool calls that a stream carries in pieces, finish reasons and
-- usage counts.
pub mod Merge
mod Examples
use devin2proxy.Prelude.{
  ℕ, ◌+◌, ◌-◌, ◌%◌, ◌^◌, Bool, true, false, not, ◌&&◌, ◌||◌, Option, none, some, List, [], ◌∷◌,
  ◌++◌, Bytes, codes, bytes_eq, ◌==◌, if◌then◌else◌, length,
}
use devin2proxy.Wire.Tools.{ChatToolCall}
use devin2proxy.Wire.Configuration.{ModelUsageStats}

pub record ToolCall : Type 0 where
  pub id : Bytes
  pub type : Bytes
  pub name : Bytes
  pub arguments : Bytes

pub record ToolCallUpdate : Type 0 where
  pub index : ℕ
  pub started : Bool
  pub id : Bytes
  pub name : Bytes
  pub arguments : Bytes

abbrev pub is_empty_text : Bytes → Bool
is_empty_text [] = true
is_empty_text (c ∷ s) = false

abbrev pub no_calls : List ToolCall → Bool
no_calls [] = true
no_calls (c ∷ calls) = false

abbrev pub opened : ChatToolCall → ToolCall
opened d = record {
  id = d.id;
  type = codes "function";
  name = d.name;
  arguments = d.arguments_json;
}

-- What a later fragment does to the call that is open.
abbrev pub extended : ChatToolCall → ToolCall → ToolCall
extended d cur = record cur {
  name = if not (is_empty_text d.name) && is_empty_text cur.name then d.name else cur.name;
  arguments = cur.arguments ++ d.arguments_json;
}

-- `cur := &a.calls[len(a.calls)-1]`
unfoldable pub change_last : (ToolCall → ToolCall) → List ToolCall → List ToolCall
change_last change [] = []
change_last change (c ∷ []) = change c ∷ []
change_last change (c ∷ d ∷ calls) = c ∷ change_last change (d ∷ calls)

abbrev pub opening : List ToolCall → ChatToolCall → ToolCallUpdate
opening calls d = record {
  index = length calls;
  started = true;
  id = d.id;
  name = d.name;
  arguments = d.arguments_json;
}

abbrev pub continuing : List ToolCall → ChatToolCall → ToolCallUpdate
continuing calls d = record {
  index = length calls - 1;
  started = false;
  id = [];
  name = d.name;
  arguments = d.arguments_json;
}

-- One round of the loop of `Add`.
unfoldable pub add_delta : List ToolCall → ChatToolCall → ToolCallUpdate × List ToolCall
add_delta calls d =
    if not (is_empty_text d.id) || no_calls calls
    then (opening calls d, calls ++ (opened d ∷ []))
    else (continuing calls d, change_last (extended d) calls)

-- `Add`
unfoldable pub add_deltas : List ToolCall → List ChatToolCall → List ToolCallUpdate × List ToolCall
add_deltas calls [] = ([], calls)
add_deltas calls (d ∷ deltas) =
    let (update, calls') = add_delta calls d in
    let (updates, calls'') = add_deltas calls' deltas in (update ∷ updates, calls'')

-- `FinishReason`: 3, 9 and 1 are `StopMaxTokens`, `StopPartial` and `StopIncomplete`, and 10 is
-- `StopFunctionCall`.
unfoldable pub finish_reason : ℕ → Bytes
finish_reason stop =
    if stop == 3 || stop == 9 || stop == 1
    then codes "length"
    else if stop == 10
    then codes "tool_calls"
    else codes "stop"

pub record Usage : Type 0 where
  pub prompt_tokens : ℕ
  pub completion_tokens : ℕ
  pub total_tokens : ℕ

-- `UsageFromStats`: sums of 64 bits, which cut off what does not fit.
unfoldable pub usage_from_stats : Option ModelUsageStats → Option Usage
usage_from_stats none = none
usage_from_stats (some u) =
    let prompt = (u.input_tokens + u.cache_read_tokens + u.cache_write_tokens) % 2 ^ 64 in
    let completion = u.output_tokens in
    if prompt == 0 && completion == 0
    then none
    else some (record {
      prompt_tokens = prompt;
      completion_tokens = completion;
      total_tokens = (prompt + completion) % 2 ^ 64;
    })
