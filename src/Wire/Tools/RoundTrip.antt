-- ===== src/Wire/Tools/RoundTrip.antt =====
-- internal/devin/wire.go: the small messages come back as they were sent.
use devin2proxy.Prelude.{◌≡◌, refl, arith, []}
use devin2proxy.Wire.Loop.{Leads-empty, decode-Leads}
use devin2proxy.Wire.Writes.{Leads-write_uint64, Leads-write_string}
use devin2proxy.Wire.Tools.{
  ChatToolCall, ChatToolDefinition, ImageData, no_tool_call, no_tool_definition, no_image,
  tool_call_field, tool_definition_field, image_field, decode_chat_tool_call,
  decode_chat_tool_definition, decode_image_data, encode_chat_tool_call,
  encode_chat_tool_definition, encode_image_data, ToolCallFits, ToolDefinitionFits, ImageFits,
}

pub decode_chat_tool_call-encode_chat_tool_call :
    (t : ChatToolCall) → ToolCallFits t → decode_chat_tool_call (encode_chat_tool_call t) ≡ t
unfolding decode_chat_tool_call encode_chat_tool_call tool_call_field
decode_chat_tool_call-encode_chat_tool_call t (h0, h1, h2) =
    let start = no_tool_call in
    let l0 = Leads-empty tool_call_field start in
    let l1 =
      Leads-write_string tool_call_field start (λ x. record start { id = x }) [] 1 t.id
        (omega arith) (omega arith) h0 (λ r. refl) l0 in
    let l2 =
      Leads-write_string tool_call_field start (λ x. record start { id = t.id; name = x }) _ 2
        t.name (omega arith) (omega arith) h1 (λ r. refl) l1 in
    let l3 =
      Leads-write_string tool_call_field start
        (λ x. record start { id = t.id; name = t.name; arguments_json = x }) _ 3 t.arguments_json
        (omega arith) (omega arith) h2 (λ r. refl) l2 in
    (decode-Leads tool_call_field start t _ l3).0

pub decode_chat_tool_definition-encode_chat_tool_definition :
    (t : ChatToolDefinition)
    → ToolDefinitionFits t
    → decode_chat_tool_definition (encode_chat_tool_definition t) ≡ t
unfolding decode_chat_tool_definition encode_chat_tool_definition tool_definition_field
decode_chat_tool_definition-encode_chat_tool_definition t (h0, h1, h2) =
    let start = no_tool_definition in
    let l0 = Leads-empty tool_definition_field start in
    let l1 =
      Leads-write_string tool_definition_field start (λ x. record start { name = x }) [] 1 t.name
        (omega arith) (omega arith) h0 (λ r. refl) l0 in
    let l2 =
      Leads-write_string tool_definition_field start
        (λ x. record start { name = t.name; description = x }) _ 2 t.description (omega arith)
        (omega arith) h1 (λ r. refl) l1 in
    let l3 =
      Leads-write_string tool_definition_field start
        (λ x. record start { name = t.name; description = t.description; json_schema_string = x }) _
        3 t.json_schema_string (omega arith) (omega arith) h2 (λ r. refl) l2 in
    (decode-Leads tool_definition_field start t _ l3).0

pub decode_image_data-encode_image_data :
    (image : ImageData) → ImageFits image → decode_image_data (encode_image_data image) ≡ image
unfolding decode_image_data encode_image_data image_field
decode_image_data-encode_image_data image (h0, h1, h2, h3, h4, h5) =
    let start = no_image in
    let l0 = Leads-empty image_field start in
    let l1 =
      Leads-write_uint64 image_field start (λ x. record start { width = x }) [] 1 image.width
        (omega arith) (omega arith) h0 (λ r. refl) l0 in
    let l2 =
      Leads-write_uint64 image_field start (λ x. record start { width = image.width; height = x }) _
        2 image.height (omega arith) (omega arith) h1 (λ r. refl) l1 in
    let l3 =
      Leads-write_string image_field start
        (λ x. record start { width = image.width; height = image.height; base64_data = x }) _ 3
        image.base64_data (omega arith) (omega arith) h2 (λ r. refl) l2 in
    let l4 =
      Leads-write_string image_field start
        (λ x. record start {
          width = image.width;
          height = image.height;
          base64_data = image.base64_data;
          mime_type = x;
        })
        _ 4 image.mime_type (omega arith) (omega arith) h3 (λ r. refl) l3 in
    let l5 =
      Leads-write_string image_field start
        (λ x. record start {
          width = image.width;
          height = image.height;
          base64_data = image.base64_data;
          mime_type = image.mime_type;
          source_path = x;
        })
        _ 5 image.source_path (omega arith) (omega arith) h4 (λ r. refl) l4 in
    let l6 =
      Leads-write_string image_field start
        (λ x. record start {
          width = image.width;
          height = image.height;
          base64_data = image.base64_data;
          mime_type = image.mime_type;
          source_path = image.source_path;
          caption = x;
        })
        _ 6 image.caption (omega arith) (omega arith) h5 (λ r. refl) l5 in
    (decode-Leads image_field start image _ l6).0
