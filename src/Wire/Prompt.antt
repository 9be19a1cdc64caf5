-- ===== src/Wire/Prompt.antt =====
-- internal/devin/wire.go: one turn of the conversation.
use devin2proxy.Prelude.{
  ℕ, ◌^◌, ◌<◌, ◌≡◌, refl, Bool, false, ◌&&◌, List, [], ◌∷◌, ◌++◌, All, Bytes, arith, ◌==◌,
  if◌then◌else◌,
}
use devin2proxy.Pb.Writer.{wire_varint, wire_bytes, write_uint64, write_string, write_bool}
use devin2proxy.Pb.Reader.{Reader, read_varint, read_bytes, read_bool}
use devin2proxy.Wire.Loop.{decode, Leads-empty, decode-Leads}
use devin2proxy.Wire.Writes.{Leads-write_uint64, Leads-write_string, Leads-write_bool}
use devin2proxy.Wire.Each.{write_each, Leads-write_each}
use devin2proxy.Wire.Tools.{
  store, skipped, Fits, ToolCallFits, ImageFits, ChatToolCall, ImageData, decode_chat_tool_call,
  decode_image_data, encode_chat_tool_call, encode_image_data,
}
use devin2proxy.Wire.Numbers.{
  cmp_message_id, cmp_source, cmp_prompt, cmp_tool_calls, cmp_tool_call_id,
  cmp_tool_result_is_error, cmp_images, cmp_thinking, cmp_signature, cmp_thinking_redacted,
}
use devin2proxy.Wire.Tools.RoundTrip.{
  decode_chat_tool_call-encode_chat_tool_call, decode_image_data-encode_image_data,
}

pub record ChatMessagePrompt : Type 0 where
  pub message_id : Bytes
  pub source : ℕ
  pub prompt : Bytes
  pub tool_calls : List ChatToolCall
  pub tool_call_id : Bytes
  pub tool_result_is_error : Bool
  pub images : List ImageData
  pub thinking : Bytes
  pub signature : Bytes
  pub thinking_redacted : Bool

abbrev pub no_prompt : ChatMessagePrompt
no_prompt = record {
  message_id = [];
  source = 0;
  prompt = [];
  tool_calls = [];
  tool_call_id = [];
  tool_result_is_error = false;
  images = [];
  thinking = [];
  signature = [];
  thinking_redacted = false;
}

unfoldable pub prompt_field : ℕ → ℕ → Reader → ChatMessagePrompt → ChatMessagePrompt × Reader
prompt_field f w r out =
    if f == cmp_message_id && w == wire_bytes
    then store (read_bytes r) (λ x. record out { message_id = x })
    else if f == cmp_source && w == wire_varint
    then store (read_varint r) (λ x. record out { source = x })
    else if f == cmp_prompt && w == wire_bytes
    then store (read_bytes r) (λ x. record out { prompt = x })
    else if f == cmp_tool_calls && w == wire_bytes
    then store (read_bytes r)
        (λ b. record out { tool_calls = out.tool_calls ++ (decode_chat_tool_call b ∷ []) })
    else if f == cmp_tool_call_id && w == wire_bytes
    then store (read_bytes r) (λ x. record out { tool_call_id = x })
    else if f == cmp_tool_result_is_error && w == wire_varint
    then store (read_bool r) (λ x. record out { tool_result_is_error = x })
    else if f == cmp_images && w == wire_bytes
    then store (read_bytes r)
        (λ b. record out { images = out.images ++ (decode_image_data b ∷ []) })
    else if f == cmp_thinking && w == wire_bytes
    then store (read_bytes r) (λ x. record out { thinking = x })
    else if f == cmp_signature && w == wire_bytes
    then store (read_bytes r) (λ x. record out { signature = x })
    else if f == cmp_thinking_redacted && w == wire_varint
    then store (read_bool r) (λ x. record out { thinking_redacted = x })
    else skipped r w out

unfoldable pub decode_chat_message_prompt : Bytes → ChatMessagePrompt
decode_chat_message_prompt b = (decode prompt_field no_prompt b).0

unfoldable pub encode_chat_message_prompt : ChatMessagePrompt → Bytes
encode_chat_message_prompt turn =
    let sub = write_string [] cmp_message_id turn.message_id in
    let sub = write_uint64 sub cmp_source turn.source in
    let sub = write_string sub cmp_prompt turn.prompt in
    let sub = write_each sub cmp_tool_calls encode_chat_tool_call turn.tool_calls in
    let sub = write_string sub cmp_tool_call_id turn.tool_call_id in
    let sub = write_bool sub cmp_tool_result_is_error turn.tool_result_is_error in
    let sub = write_each sub cmp_images encode_image_data turn.images in
    let sub = write_string sub cmp_thinking turn.thinking in
    let sub = write_string sub cmp_signature turn.signature in
    write_bool sub cmp_thinking_redacted turn.thinking_redacted

abbrev pub PromptFits : ChatMessagePrompt → Type 0
PromptFits turn =
    Fits turn.message_id
    × (turn.source < 2 ^ 64)
    × Fits turn.prompt
    × All (λ x. ToolCallFits x × Fits (encode_chat_tool_call x)) turn.tool_calls
    × Fits turn.tool_call_id
    × All (λ x. ImageFits x × Fits (encode_image_data x)) turn.images
    × Fits turn.thinking
    × Fits turn.signature

calls_come_back :
    (xs : List ChatToolCall)
    → All (λ x. ToolCallFits x × Fits (encode_chat_tool_call x)) xs
    → All
        (λ x.
          Fits (encode_chat_tool_call x) × (decode_chat_tool_call (encode_chat_tool_call x) ≡ x))
        xs
calls_come_back [] _ = tt
calls_come_back (x ∷ xs) ((h, size), all) =
    ((size, decode_chat_tool_call-encode_chat_tool_call x h), calls_come_back xs all)

images_come_back :
    (xs : List ImageData)
    → All (λ x. ImageFits x × Fits (encode_image_data x)) xs
    → All (λ x. Fits (encode_image_data x) × (decode_image_data (encode_image_data x) ≡ x)) xs
images_come_back [] _ = tt
images_come_back (x ∷ xs) ((h, size), all) =
    ((size, decode_image_data-encode_image_data x h), images_come_back xs all)

pub decode_chat_message_prompt-encode_chat_message_prompt :
    (turn : ChatMessagePrompt)
    → PromptFits turn
    → decode_chat_message_prompt (encode_chat_message_prompt turn) ≡ turn
unfolding decode_chat_message_prompt encode_chat_message_prompt prompt_field read_varint read_bool
decode_chat_message_prompt-encode_chat_message_prompt turn (h0, h1, h2, h3, h4, h6, h7, h8) =
    let start = no_prompt in
    let l0 = Leads-empty prompt_field start in
    let l1 =
      Leads-write_string prompt_field start (λ x. record start { message_id = x }) [] cmp_message_id
        turn.message_id (omega arith) (omega arith) h0 (λ r. refl) l0 in
    let l2 =
      Leads-write_uint64 prompt_field start
        (λ x. record start { message_id = turn.message_id; source = x }) _ cmp_source turn.source
        (omega arith) (omega arith) h1 (λ r. refl) l1 in
    let l3 =
      Leads-write_string prompt_field start
        (λ x. record start { message_id = turn.message_id; source = turn.source; prompt = x }) _
        cmp_prompt turn.prompt (omega arith) (omega arith) h2 (λ r. refl) l2 in
    let l4 =
      Leads-write_each prompt_field start
        (λ x. record start {
          message_id = turn.message_id;
          source = turn.source;
          prompt = turn.prompt;
          tool_calls = x;
        })
        encode_chat_tool_call decode_chat_tool_call cmp_tool_calls turn.tool_calls _ (omega arith)
        (omega arith) (calls_come_back turn.tool_calls h3) (λ xs r ok. refl) l3 in
    let l5 =
      Leads-write_string prompt_field start
        (λ x. record start {
          message_id = turn.message_id;
          source = turn.source;
          prompt = turn.prompt;
          tool_calls = turn.tool_calls;
          tool_call_id = x;
        })
        _ cmp_tool_call_id turn.tool_call_id (omega arith) (omega arith) h4 (λ r. refl) l4 in
    let l6 =
      Leads-write_bool prompt_field start
        (λ x. record start {
          message_id = turn.message_id;
          source = turn.source;
          prompt = turn.prompt;
          tool_calls = turn.tool_calls;
          tool_call_id = turn.tool_call_id;
          tool_result_is_error = x;
        })
        _ cmp_tool_result_is_error turn.tool_result_is_error (omega arith) (omega arith) (λ r. refl)
        l5 in
    let l7 =
      Leads-write_each prompt_field start
        (λ x. record start {
          message_id = turn.message_id;
          source = turn.source;
          prompt = turn.prompt;
          tool_calls = turn.tool_calls;
          tool_call_id = turn.tool_call_id;
          tool_result_is_error = turn.tool_result_is_error;
          images = x;
        })
        encode_image_data decode_image_data cmp_images turn.images _ (omega arith) (omega arith)
        (images_come_back turn.images h6) (λ xs r ok. refl) l6 in
    let l8 =
      Leads-write_string prompt_field start
        (λ x. record start {
          message_id = turn.message_id;
          source = turn.source;
          prompt = turn.prompt;
          tool_calls = turn.tool_calls;
          tool_call_id = turn.tool_call_id;
          tool_result_is_error = turn.tool_result_is_error;
          images = turn.images;
          thinking = x;
        })
        _ cmp_thinking turn.thinking (omega arith) (omega arith) h7 (λ r. refl) l7 in
    let l9 =
      Leads-write_string prompt_field start
        (λ x. record start {
          message_id = turn.message_id;
          source = turn.source;
          prompt = turn.prompt;
          tool_calls = turn.tool_calls;
          tool_call_id = turn.tool_call_id;
          tool_result_is_error = turn.tool_result_is_error;
          images = turn.images;
          thinking = turn.thinking;
          signature = x;
        })
        _ cmp_signature turn.signature (omega arith) (omega arith) h8 (λ r. refl) l8 in
    let l10 =
      Leads-write_bool prompt_field start
        (λ x. record start {
          message_id = turn.message_id;
          source = turn.source;
          prompt = turn.prompt;
          tool_calls = turn.tool_calls;
          tool_call_id = turn.tool_call_id;
          tool_result_is_error = turn.tool_result_is_error;
          images = turn.images;
          thinking = turn.thinking;
          signature = turn.signature;
          thinking_redacted = x;
        })
        _ cmp_thinking_redacted turn.thinking_redacted (omega arith) (omega arith) (λ r. refl) l9 in
    (decode-Leads prompt_field start turn _ l10).0
