-- ===== src/Wire/Tools.antt =====
-- internal/devin/wire.go: tool calls, tool definitions and images, both ways.
pub mod RoundTrip
use devin2proxy.Prelude.{
  ℕ, ◌^◌, ◌<◌, ◌≡◌, refl, Bool, true, false, ◌&&◌, Option, none, some, List, [], ◌∷◌, Bytes, arith,
  ◌==◌, if◌then◌else◌, length,
}
use devin2proxy.Pb.Writer.{wire_varint, wire_bytes, write_uint64, write_string}
use devin2proxy.Pb.Reader.{Reader, read_varint, read_bytes, skip}
use devin2proxy.Wire.Loop.{decode}

-- `out.X = r.…()`
abbrev pub store {ℓ κ} : {A : Type ℓ} {B : Type κ} → B × Reader → (B → A) → A × Reader
store p set = (set p.0, p.1)

abbrev pub skipped {ℓ} : {A : Type ℓ} → Reader → ℕ → A → A × Reader
skipped r w out = (out, skip r w)

pub record ChatToolCall : Type 0 where
  pub id : Bytes
  pub name : Bytes
  pub arguments_json : Bytes

pub record ChatToolDefinition : Type 0 where
  pub name : Bytes
  pub description : Bytes
  pub json_schema_string : Bytes

pub record ImageData : Type 0 where
  pub width : ℕ
  pub height : ℕ
  pub base64_data : Bytes
  pub mime_type : Bytes
  pub source_path : Bytes
  pub caption : Bytes

abbrev pub no_tool_call : ChatToolCall
no_tool_call = record { id = []; name = []; arguments_json = [] }

abbrev pub no_tool_definition : ChatToolDefinition
no_tool_definition = record { name = []; description = []; json_schema_string = [] }

abbrev pub no_image : ImageData
no_image = record {
  width = 0;
  height = 0;
  base64_data = [];
  mime_type = [];
  source_path = [];
  caption = [];
}

unfoldable pub tool_call_field : ℕ → ℕ → Reader → ChatToolCall → ChatToolCall × Reader
tool_call_field f w r out =
    if f == 1 && w == wire_bytes
    then store (read_bytes r) (λ s. record out { id = s })
    else if f == 2 && w == wire_bytes
    then store (read_bytes r) (λ s. record out { name = s })
    else if f == 3 && w == wire_bytes
    then store (read_bytes r) (λ s. record out { arguments_json = s })
    else skipped r w out

unfoldable pub tool_definition_field :
    ℕ → ℕ → Reader → ChatToolDefinition → ChatToolDefinition × Reader
tool_definition_field f w r out =
    if f == 1 && w == wire_bytes
    then store (read_bytes r) (λ s. record out { name = s })
    else if f == 2 && w == wire_bytes
    then store (read_bytes r) (λ s. record out { description = s })
    else if f == 3 && w == wire_bytes
    then store (read_bytes r) (λ s. record out { json_schema_string = s })
    else skipped r w out

unfoldable pub image_field : ℕ → ℕ → Reader → ImageData → ImageData × Reader
image_field f w r out =
    if f == 1 && w == wire_varint
    then store (read_varint r) (λ n. record out { width = n })
    else if f == 2 && w == wire_varint
    then store (read_varint r) (λ n. record out { height = n })
    else if f == 3 && w == wire_bytes
    then store (read_bytes r) (λ s. record out { base64_data = s })
    else if f == 4 && w == wire_bytes
    then store (read_bytes r) (λ s. record out { mime_type = s })
    else if f == 5 && w == wire_bytes
    then store (read_bytes r) (λ s. record out { source_path = s })
    else if f == 6 && w == wire_bytes
    then store (read_bytes r) (λ s. record out { caption = s })
    else skipped r w out

unfoldable pub decode_chat_tool_call : Bytes → ChatToolCall
decode_chat_tool_call b = (decode tool_call_field no_tool_call b).0

unfoldable pub decode_chat_tool_definition : Bytes → ChatToolDefinition
decode_chat_tool_definition b = (decode tool_definition_field no_tool_definition b).0

unfoldable pub decode_image_data : Bytes → ImageData
decode_image_data b = (decode image_field no_image b).0

unfoldable pub encode_chat_tool_call : ChatToolCall → Bytes
encode_chat_tool_call call =
    let sub = write_string [] 1 call.id in
    let sub = write_string sub 2 call.name in write_string sub 3 call.arguments_json

unfoldable pub encode_chat_tool_definition : ChatToolDefinition → Bytes
encode_chat_tool_definition tool =
    let sub = write_string [] 1 tool.name in
    let sub = write_string sub 2 tool.description in write_string sub 3 tool.json_schema_string

unfoldable pub encode_image_data : ImageData → Bytes
encode_image_data image =
    let sub = write_uint64 [] 1 image.width in
    let sub = write_uint64 sub 2 image.height in
    let sub = write_string sub 3 image.base64_data in
    let sub = write_string sub 4 image.mime_type in
    let sub = write_string sub 5 image.source_path in write_string sub 6 image.caption

-- Values that Go can hold: strings of a length, and numbers, below 2 ^ 64.
abbrev pub Fits : Bytes → Type 0
Fits s = length s < 2 ^ 64

abbrev pub ToolCallFits : ChatToolCall → Type 0
ToolCallFits t = Fits t.id × Fits t.name × Fits t.arguments_json

abbrev pub ToolDefinitionFits : ChatToolDefinition → Type 0
ToolDefinitionFits t = Fits t.name × Fits t.description × Fits t.json_schema_string

abbrev pub ImageFits : ImageData → Type 0
ImageFits i =
    (i.width < 2 ^ 64)
    × (i.height < 2 ^ 64)
    × Fits i.base64_data
    × Fits i.mime_type
    × Fits i.source_path
    × Fits i.caption
