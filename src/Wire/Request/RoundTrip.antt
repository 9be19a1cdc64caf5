-- ===== src/Wire/Request/RoundTrip.antt =====
-- internal/devin/wire.go: the request comes back as it was sent.
use devin2proxy.Prelude.{
  ℕ, ◌^◌, ◌<◌, ◌≤◌, ◌≡◌, refl, sym, ap, ◌∙◌, subst, false, Option, none, some, List, [], ◌∷◌, ◌++◌,
  All, Bytes, arith, if◌then◌else◌,
}
use devin2proxy.Pb.Writer.{write_raw_bytes}
use devin2proxy.Pb.Reader.{is_some, Reader, read_bytes}
use devin2proxy.Wire.Loop.{Leads, Leads-empty, decode-Leads}
use devin2proxy.Wire.Writes.{Leads-write_uint64, Leads-write_string, Leads-write_raw_bytes}
use devin2proxy.Wire.Each.{Leads-write_each}
use devin2proxy.Wire.Tools.{
  Fits, ToolDefinitionFits, ChatToolDefinition, decode_chat_tool_definition,
  encode_chat_tool_definition,
}
use devin2proxy.Wire.Configuration.{
  decode_completion_configuration, encode_completion_configuration, ConfigurationFits,
  decode_completion_configuration-encode_completion_configuration,
}
use devin2proxy.Wire.Prompt.{
  ChatMessagePrompt, decode_chat_message_prompt, encode_chat_message_prompt, PromptFits,
  decode_chat_message_prompt-encode_chat_message_prompt,
}
use devin2proxy.Wire.Trajectory.{
  decode_trajectory_reference, encode_trajectory_reference, TrajectoryFits,
  decode_trajectory_reference-encode_trajectory_reference,
}
use devin2proxy.Wire.Metadata.{decode_metadata, encode_metadata, MetadataFits}
use devin2proxy.Wire.Metadata.RoundTrip.{decode_metadata-encode_metadata}
use devin2proxy.Wire.Tools.RoundTrip.{decode_chat_tool_definition-encode_chat_tool_definition}
use devin2proxy.Wire.Request.{
  GetChatMessageRequest, no_request, append_read, request_field, decode_get_chat_message_request,
  write_optional, encode_get_chat_message_request, OptionFits, RequestFits,
}

Leads-write_optional :
    {A X : Type 0} (step : ℕ → ℕ → Reader → A → A × Reader) (start : A) (set : Option X → A)
    (P : X → Type 0) (encode : X → Bytes) (decode_x : Bytes → X) (buf : Bytes) (field : ℕ)
    (x : Option X)
    → 1 ≤ field
    → field < 2 ^ 29
    → OptionFits P encode x
    → ((y : X) → P y → decode_x (encode y) ≡ y)
    → ((r : Reader)
        → step field 2 r (set none) ≡ (set (some (decode_x (read_bytes r).0)), (read_bytes r).1))
    → Leads step start buf (set none)
    → Leads step start (write_optional buf field encode x) (set x)
unfolding write_optional
Leads-write_optional step start set P encode decode_x buf field none h1 hf h back takes leads =
    leads
Leads-write_optional step start set P encode decode_x buf field (some x) h1 hf (h, size) back takes
      leads =
    subst (λ y. Leads step start (write_raw_bytes buf field (encode x)) (set (some y))) (back x h)
      (Leads-write_raw_bytes step start (set none) (λ b. set (some (decode_x b))) buf field
        (encode x) h1 hf size (λ r ok. takes r) leads)

append_read_lem :
    {A : Type 0} (p : Bytes × Reader) (out : A) (set : Bytes → A)
    → p.1.err ≡ none
    → append_read p out set ≡ (set p.0, p.1)
append_read_lem p out set h = ap (λ e. if is_some e then (out, p.1) else (set p.0, p.1)) h

turns_come_back :
    (xs : List ChatMessagePrompt)
    → All (λ x. PromptFits x × Fits (encode_chat_message_prompt x)) xs
    → All
        (λ x.
          Fits (encode_chat_message_prompt x)
          × (decode_chat_message_prompt (encode_chat_message_prompt x) ≡ x))
        xs
turns_come_back [] _ = tt
turns_come_back (x ∷ xs) ((h, size), all) =
    ((size, decode_chat_message_prompt-encode_chat_message_prompt x h), turns_come_back xs all)

tools_come_back :
    (xs : List ChatToolDefinition)
    → All (λ x. ToolDefinitionFits x × Fits (encode_chat_tool_definition x)) xs
    → All
        (λ x.
          Fits (encode_chat_tool_definition x)
          × (decode_chat_tool_definition (encode_chat_tool_definition x) ≡ x))
        xs
tools_come_back [] _ = tt
tools_come_back (x ∷ xs) ((h, size), all) =
    ((size, decode_chat_tool_definition-encode_chat_tool_definition x h), tools_come_back xs all)

pub request-Leads :
    (req : GetChatMessageRequest)
    → RequestFits req
    → Leads request_field no_request
        (encode_get_chat_message_request req)
        (record req { unknown = []; truncated = false })
unfolding encode_get_chat_message_request request_field
request-Leads req (h0, h1, h2, h3, h4, h5, h6, h7, h8, h9, h10, h11, known, whole) =
    let step = request_field in
    let start = no_request in
    let l0 = Leads-empty step start in
    let l1 =
      Leads-write_optional step start (λ x. record start { metadata = x }) MetadataFits
        encode_metadata decode_metadata [] 1 req.metadata (omega arith) (omega arith) h0
        decode_metadata-encode_metadata (λ r. refl) l0 in
    let l2 =
      Leads-write_string step start (λ x. record start { metadata = req.metadata; prompt = x }) _ 2
        req.prompt (omega arith) (omega arith) h1 (λ r. refl) l1 in
    let l3 =
      Leads-write_each step start
        (λ x. record start {
          metadata = req.metadata;
          prompt = req.prompt;
          chat_message_prompts = x;
        })
        encode_chat_message_prompt decode_chat_message_prompt 3 req.chat_message_prompts _
        (omega arith) (omega arith) (turns_come_back req.chat_message_prompts h2)
        (λ xs r good.
          append_read_lem (read_bytes r) _
            (λ raw. record start {
              metadata = req.metadata;
              prompt = req.prompt;
              chat_message_prompts = xs ++ (decode_chat_message_prompt raw ∷ []);
            })
            good)
        l2 in
    let l4 =
      Leads-write_uint64 step start
        (λ x. record start {
          metadata = req.metadata;
          prompt = req.prompt;
          chat_message_prompts = req.chat_message_prompts;
          request_type = x;
        })
        _ 7 req.request_type (omega arith) (omega arith) h3 (λ r. refl) l3 in
    let l5 =
      Leads-write_optional step start
        (λ x. record start {
          metadata = req.metadata;
          prompt = req.prompt;
          chat_message_prompts = req.chat_message_prompts;
          request_type = req.request_type;
          configuration = x;
        })
        ConfigurationFits encode_completion_configuration decode_completion_configuration _ 8
        req.configuration (omega arith) (omega arith) h4
        decode_completion_configuration-encode_completion_configuration (λ r. refl) l4 in
    let l6 =
      Leads-write_each step start
        (λ x. record start {
          metadata = req.metadata;
          prompt = req.prompt;
          chat_message_prompts = req.chat_message_prompts;
          request_type = req.request_type;
          configuration = req.configuration;
          tools = x;
        })
        encode_chat_tool_definition decode_chat_tool_definition 10 req.tools _ (omega arith)
        (omega arith) (tools_come_back req.tools h5)
        (λ xs r good.
          append_read_lem (read_bytes r) _
            (λ raw. record start {
              metadata = req.metadata;
              prompt = req.prompt;
              chat_message_prompts = req.chat_message_prompts;
              request_type = req.request_type;
              configuration = req.configuration;
              tools = xs ++ (decode_chat_tool_definition raw ∷ []);
            })
            good)
        l5 in
    let l7 =
      Leads-write_optional step start
        (λ x. record start {
          metadata = req.metadata;
          prompt = req.prompt;
          chat_message_prompts = req.chat_message_prompts;
          request_type = req.request_type;
          configuration = req.configuration;
          tools = req.tools;
          trajectory_ref = x;
        })
        TrajectoryFits encode_trajectory_reference decode_trajectory_reference _ 15
        req.trajectory_ref (omega arith) (omega arith) h6
        decode_trajectory_reference-encode_trajectory_reference (λ r. refl) l6 in
    let l8 =
      Leads-write_string step start
        (λ x. record start {
          metadata = req.metadata;
          prompt = req.prompt;
          chat_message_prompts = req.chat_message_prompts;
          request_type = req.request_type;
          configuration = req.configuration;
          tools = req.tools;
          trajectory_ref = req.trajectory_ref;
          cascade_id = x;
        })
        _ 16 req.cascade_id (omega arith) (omega arith) h7 (λ r. refl) l7 in
    let l9 =
      Leads-write_uint64 step start
        (λ x. record start {
          metadata = req.metadata;
          prompt = req.prompt;
          chat_message_prompts = req.chat_message_prompts;
          request_type = req.request_type;
          configuration = req.configuration;
          tools = req.tools;
          trajectory_ref = req.trajectory_ref;
          cascade_id = req.cascade_id;
          planner_mode = x;
        })
        _ 20 req.planner_mode (omega arith) (omega arith) h8 (λ r. refl) l8 in
    let l10 =
      Leads-write_string step start
        (λ x. record start {
          metadata = req.metadata;
          prompt = req.prompt;
          chat_message_prompts = req.chat_message_prompts;
          request_type = req.request_type;
          configuration = req.configuration;
          tools = req.tools;
          trajectory_ref = req.trajectory_ref;
          cascade_id = req.cascade_id;
          planner_mode = req.planner_mode;
          chat_model_uid = x;
        })
        _ 21 req.chat_model_uid (omega arith) (omega arith) h9 (λ r. refl) l9 in
    let l11 =
      Leads-write_string step start
        (λ x. record start {
          metadata = req.metadata;
          prompt = req.prompt;
          chat_message_prompts = req.chat_message_prompts;
          request_type = req.request_type;
          configuration = req.configuration;
          tools = req.tools;
          trajectory_ref = req.trajectory_ref;
          cascade_id = req.cascade_id;
          planner_mode = req.planner_mode;
          chat_model_uid = req.chat_model_uid;
          execution_id = x;
        })
        _ 22 req.execution_id (omega arith) (omega arith) h10 (λ r. refl) l10 in
    let l12 =
      Leads-write_string step start
        (λ x. record start {
          metadata = req.metadata;
          prompt = req.prompt;
          chat_message_prompts = req.chat_message_prompts;
          request_type = req.request_type;
          configuration = req.configuration;
          tools = req.tools;
          trajectory_ref = req.trajectory_ref;
          cascade_id = req.cascade_id;
          planner_mode = req.planner_mode;
          chat_model_uid = req.chat_model_uid;
          execution_id = req.execution_id;
          field28 = x;
        })
        _ 28 req.field28 (omega arith) (omega arith) h11 (λ r. refl) l11 in
    l12

-- A request comes back from its encoding as it was, every nested message included, and not as a
-- truncated frame. Its numbers and the lengths of its strings and nested messages are below 2 ^ 64,
-- no float is the negative zero, a field 4 that is not set is zero, and it has no unknown fields and
-- no mark of truncation.
pub decode_get_chat_message_request-encode_get_chat_message_request :
    (req : GetChatMessageRequest)
    → RequestFits req
    → decode_get_chat_message_request (encode_get_chat_message_request req) ≡ req
unfolding decode_get_chat_message_request
decode_get_chat_message_request-encode_get_chat_message_request req h =
    let (_, _, _, _, _, _, _, _, _, _, _, _, known, whole) = h in
    let (value, clean) =
      decode-Leads request_field no_request (record req { unknown = []; truncated = false }) _
        (request-Leads req h) in
    let read : decode_get_chat_message_request (encode_get_chat_message_request req)
        ≡ record req { unknown = []; truncated = false } =
      λ i. record (value i) { truncated = is_some (clean i) } in
    let same : record req { unknown = []; truncated = false } ≡ req =
      λ i. record req { unknown = sym known i; truncated = sym whole i } in
    read ∙ same
