-- ===== src/Wire/Request.antt =====
-- internal/devin/wire.go: the request of GetChatMessage.
pub mod RoundTrip
use devin2proxy.Prelude.{
  ℕ, ◌+◌, ◌-◌, ◌^◌, ◌<◌, ◌≤◌, ◌≡◌, ◌≢◌, refl, sym, ap, ◌∙◌, subst, inl, inr, zero, suc, Bool, true,
  false, not, ◌&&◌, ◌||◌, Option, none, some, List, [], ◌∷◌, ◌++◌, All, Bytes, arith, ltb, leb,
  ◌==◌, if◌then◌else◌, length, take, drop, append-nil, append_assoc, length-append,
}
use devin2proxy.Pb.Writer.{
  wire_varint, wire_bytes, wire_fixed64, wire_fixed32, write_uint64, write_varint, write_string,
  write_bool, write_double, write_raw_bytes, write_packed_varints, varints, varint,
}
use devin2proxy.Pb.Reader.{
  Reader, new_reader, failed, remaining, advance, read_varint, read_bytes, read_bool, read_double,
  skip,
}
use devin2proxy.Wire.Loop.{decode, Leads, Leads-empty, decode-Leads}
use devin2proxy.Wire.Writes.{
  Leads-write_uint64, Leads-write_varint, Leads-write_string, Leads-write_bool, Leads-write_double,
  Leads-write_raw_bytes,
}
use devin2proxy.Wire.Each.{write_each, Leads-write_each}
use devin2proxy.Wire.Tools.{
  store, skipped, Fits, ToolCallFits, ToolDefinitionFits, ImageFits, ChatToolCall,
  ChatToolDefinition, ImageData, decode_chat_tool_call, decode_chat_tool_definition,
  decode_image_data, encode_chat_tool_call, encode_chat_tool_definition, encode_image_data,
}
use devin2proxy.Wire.Configuration.{
  CompletionConfiguration, ModelUsageStats, decode_completion_configuration,
  encode_completion_configuration, decode_model_usage_stats, ConfigurationFits,
  decode_completion_configuration-encode_completion_configuration,
}
use devin2proxy.Wire.Prompt.{
  ChatMessagePrompt, decode_chat_message_prompt, encode_chat_message_prompt, PromptFits,
  decode_chat_message_prompt-encode_chat_message_prompt,
}
use devin2proxy.Wire.Trajectory.{
  UnknownField, TrajectoryReference, record_unknown, decode_trajectory_reference,
  encode_trajectory_reference, TrajectoryFits,
  decode_trajectory_reference-encode_trajectory_reference,
}
use devin2proxy.Wire.Metadata.{Metadata, decode_metadata, encode_metadata, MetadataFits}
use devin2proxy.Wire.Numbers.{
  req_metadata, req_prompt, req_chat_message_prompts, req_request_type, req_configuration,
  req_tools, req_trajectory_ref, req_cascade_id, req_planner_mode, req_chat_model_uid,
  req_execution_id, req_field28,
}

pub record GetChatMessageRequest : Type 0 where
  pub metadata : Option Metadata
  pub prompt : Bytes
  pub chat_message_prompts : List ChatMessagePrompt
  pub request_type : ℕ
  pub configuration : Option CompletionConfiguration
  pub tools : List ChatToolDefinition
  pub trajectory_ref : Option TrajectoryReference
  pub cascade_id : Bytes
  pub planner_mode : ℕ
  pub chat_model_uid : Bytes
  pub execution_id : Bytes
  pub field28 : Bytes
  pub unknown : List UnknownField
  pub truncated : Bool

abbrev pub no_request : GetChatMessageRequest
no_request = record {
  metadata = none;
  prompt = [];
  chat_message_prompts = [];
  request_type = 0;
  configuration = none;
  tools = [];
  trajectory_ref = none;
  cascade_id = [];
  planner_mode = 0;
  chat_model_uid = [];
  execution_id = [];
  field28 = [];
  unknown = [];
  truncated = false;
}

-- `if raw := r.Bytes(); r.Err() == nil { out.Xs = append(out.Xs, decode(raw)) }`
abbrev pub append_read {ℓ} : {A : Type ℓ} → Bytes × Reader → A → (Bytes → A) → A × Reader
append_read p out set = if failed p.1 then (out, p.1) else (set p.0, p.1)

unfoldable pub request_field :
    ℕ → ℕ → Reader → GetChatMessageRequest → GetChatMessageRequest × Reader
request_field f w r out =
    if f == req_metadata && w == wire_bytes
    then store (read_bytes r) (λ b. record out { metadata = some (decode_metadata b) })
    else if f == req_prompt && w == wire_bytes
    then store (read_bytes r) (λ x. record out { prompt = x })
    else if f == req_chat_message_prompts && w == wire_bytes
    then append_read (read_bytes r) out (λ raw. record out {
      chat_message_prompts = out.chat_message_prompts ++ (decode_chat_message_prompt raw ∷ []);
    })
    else if f == req_request_type && w == wire_varint
    then store (read_varint r) (λ x. record out { request_type = x })
    else if f == req_configuration && w == wire_bytes
    then store (read_bytes r)
        (λ b. record out { configuration = some (decode_completion_configuration b) })
    else if f == req_tools && w == wire_bytes
    then append_read (read_bytes r) out
        (λ raw. record out { tools = out.tools ++ (decode_chat_tool_definition raw ∷ []) })
    else if f == req_trajectory_ref && w == wire_bytes
    then store (read_bytes r)
        (λ b. record out { trajectory_ref = some (decode_trajectory_reference b) })
    else if f == req_cascade_id && w == wire_bytes
    then store (read_bytes r) (λ x. record out { cascade_id = x })
    else if f == req_planner_mode && w == wire_varint
    then store (read_varint r) (λ x. record out { planner_mode = x })
    else if f == req_chat_model_uid && w == wire_bytes
    then store (read_bytes r) (λ x. record out { chat_model_uid = x })
    else if f == req_execution_id && w == wire_bytes
    then store (read_bytes r) (λ x. record out { execution_id = x })
    else if f == req_field28 && w == wire_bytes
    then store (read_bytes r) (λ x. record out { field28 = x })
    else store (record_unknown f w r) (λ x. record out { unknown = out.unknown ++ (x ∷ []) })

unfoldable pub decode_get_chat_message_request : Bytes → GetChatMessageRequest
decode_get_chat_message_request b =
    let (out, r) = decode request_field no_request b in record out { truncated = failed r }

-- `if m != nil { w.RawBytes(field, encode(m)) }`
unfoldable pub write_optional : {X : Type 0} → Bytes → ℕ → (X → Bytes) → Option X → Bytes
write_optional buf field encode none = buf
write_optional buf field encode (some x) = write_raw_bytes buf field (encode x)

unfoldable pub encode_get_chat_message_request : GetChatMessageRequest → Bytes
encode_get_chat_message_request req =
    let w = write_optional [] req_metadata encode_metadata req.metadata in
    let w = write_string w req_prompt req.prompt in
    let w =
      write_each w req_chat_message_prompts encode_chat_message_prompt req.chat_message_prompts in
    let w = write_uint64 w req_request_type req.request_type in
    let w = write_optional w req_configuration encode_completion_configuration req.configuration in
    let w = write_each w req_tools encode_chat_tool_definition req.tools in
    let w = write_optional w req_trajectory_ref encode_trajectory_reference req.trajectory_ref in
    let w = write_string w req_cascade_id req.cascade_id in
    let w = write_uint64 w req_planner_mode req.planner_mode in
    let w = write_string w req_chat_model_uid req.chat_model_uid in
    let w = write_string w req_execution_id req.execution_id in
    write_string w req_field28 req.field28

abbrev pub OptionFits : {X : Type 0} → (X → Type 0) → (X → Bytes) → Option X → Type 0
OptionFits P encode none = Unit
OptionFits P encode (some x) = P x × Fits (encode x)

-- A request that the code builds: values that Go can hold, and nothing that is not sent.
abbrev pub RequestFits : GetChatMessageRequest → Type 0
RequestFits req =
    OptionFits MetadataFits encode_metadata req.metadata
    × Fits req.prompt
    × All (λ x. PromptFits x × Fits (encode_chat_message_prompt x)) req.chat_message_prompts
    × (req.request_type < 2 ^ 64)
    × OptionFits ConfigurationFits encode_completion_configuration req.configuration
    × All (λ x. ToolDefinitionFits x × Fits (encode_chat_tool_definition x)) req.tools
    × OptionFits TrajectoryFits encode_trajectory_reference req.trajectory_ref
    × Fits req.cascade_id
    × (req.planner_mode < 2 ^ 64)
    × Fits req.chat_model_uid
    × Fits req.execution_id
    × Fits req.field28
    × (req.unknown ≡ [])
    × (req.truncated ≡ false)
