-- ===== src/Wire/Response.antt =====
-- internal/devin/wire.go: one streamed chunk of the response.
use devin2proxy.Prelude.{
  ℕ, ◌%◌, ◌^◌, Bool, true, false, ◌&&◌, Option, none, some, List, [], ◌∷◌, ◌++◌, Bytes, ◌==◌,
  if◌then◌else◌,
}
use devin2proxy.Pb.Writer.{wire_varint, wire_bytes, wire_fixed64}
use devin2proxy.Pb.Reader.{Reader, failed, read_varint, read_bytes, read_bool, read_double}
use devin2proxy.Wire.Loop.{decode}
use devin2proxy.Wire.Tools.{store, skipped, ChatToolCall, decode_chat_tool_call}
use devin2proxy.Wire.Configuration.{ModelUsageStats, decode_model_usage_stats}
use devin2proxy.Wire.Trajectory.{UnknownField, record_unknown}
use devin2proxy.Wire.Numbers.{
  resp_message_id, resp_timestamp, resp_delta_text, resp_delta_tokens, resp_stop_reason,
  resp_delta_tool_calls, resp_usage, resp_redact, resp_delta_thinking, resp_delta_signature,
  resp_thinking_redact, resp_latency, resp_request_id, resp_actual_model_uid, resp_dimension_groups,
}

pub record GetChatMessageResponse : Type 0 where
  pub message_id : Bytes
  pub timestamp_secs : ℕ
  pub timestamp_nanos : ℕ
  pub delta_text : Bytes
  pub delta_tokens : ℕ
  pub stop_reason : ℕ
  pub stop_reason_set : Bool
  pub delta_tool_calls : List ChatToolCall
  pub usage : Option ModelUsageStats
  pub redact : Bool
  pub delta_thinking : Bytes
  pub delta_signature : Bytes
  pub thinking_redact : Bool
  pub latency : ℕ
  pub request_id : Bytes
  pub actual_model_uid : Bytes
  pub unknown : List UnknownField
  pub truncated : Bool

abbrev pub no_response : GetChatMessageResponse
no_response = record {
  message_id = [];
  timestamp_secs = 0;
  timestamp_nanos = 0;
  delta_text = [];
  delta_tokens = 0;
  stop_reason = 0;
  stop_reason_set = false;
  delta_tool_calls = [];
  usage = none;
  redact = false;
  delta_thinking = [];
  delta_signature = [];
  thinking_redact = false;
  latency = 0;
  request_id = [];
  actual_model_uid = [];
  unknown = [];
  truncated = false;
}

-- The inner loop over the timestamp's fields: seconds, and the low 32 bits of the nanoseconds.
unfoldable pub timestamp_field :
    ℕ → ℕ → Reader → GetChatMessageResponse → GetChatMessageResponse × Reader
timestamp_field ff ww sub out =
    if ff == 1 && ww == wire_varint
    then store (read_varint sub) (λ x. record out { timestamp_secs = x })
    else if ff == 2 && ww == wire_varint
    then store (read_varint sub) (λ x. record out { timestamp_nanos = x % 2 ^ 32 })
    else skipped sub ww out

unfoldable pub response_field :
    ℕ → ℕ → Reader → GetChatMessageResponse → GetChatMessageResponse × Reader
response_field f w r out =
    if f == resp_message_id && w == wire_bytes
    then store (read_bytes r) (λ x. record out { message_id = x })
    else if f == resp_timestamp && w == wire_bytes
    then store (read_bytes r) (λ b. (decode timestamp_field out b).0)
    else if f == resp_delta_text && w == wire_bytes
    then store (read_bytes r) (λ x. record out { delta_text = x })
    else if f == resp_delta_tokens && w == wire_varint
    then store (read_varint r) (λ x. record out { delta_tokens = x })
    else if f == resp_stop_reason && w == wire_varint
    then store (read_varint r) (λ x. record out { stop_reason = x; stop_reason_set = true })
    else if f == resp_delta_tool_calls && w == wire_bytes
    then store (read_bytes r) (λ b. record out {
      delta_tool_calls = out.delta_tool_calls ++ (decode_chat_tool_call b ∷ []);
    })
    else if f == resp_usage && w == wire_bytes
    then store (read_bytes r) (λ b. record out { usage = some (decode_model_usage_stats b) })
    else if f == resp_redact && w == wire_varint
    then store (read_bool r) (λ x. record out { redact = x })
    else if f == resp_delta_thinking && w == wire_bytes
    then store (read_bytes r) (λ x. record out { delta_thinking = x })
    else if f == resp_delta_signature && w == wire_bytes
    then store (read_bytes r) (λ x. record out { delta_signature = x })
    else if f == resp_thinking_redact && w == wire_varint
    then store (read_bool r) (λ x. record out { thinking_redact = x })
    else if f == resp_latency && w == wire_fixed64
    then store (read_double r) (λ x. record out { latency = x })
    else if f == resp_request_id && w == wire_bytes
    then store (read_bytes r) (λ x. record out { request_id = x })
    else if f == resp_actual_model_uid && w == wire_bytes
    then store (read_bytes r) (λ x. record out { actual_model_uid = x })
    else if f == resp_dimension_groups && w == wire_bytes
    then store (read_bytes r) (λ _. out)
    else store (record_unknown f w r) (λ x. record out { unknown = out.unknown ++ (x ∷ []) })

unfoldable pub decode_get_chat_message_response : Bytes → GetChatMessageResponse
decode_get_chat_message_response b =
    let (out, r) = decode response_field no_response b in record out { truncated = failed r }
