-- ===== src/Wire/Examples.antt =====
-- Concrete runs of the theorems on the wire format.
use devin2proxy.Prelude.{
  ◌≢◌, ◌≡◌, refl, true, none, some, [], ◌∷◌, ◌+◌, ◌++◌, arith, codes, length, drop, lt_wf,
}
use native.Mathlib.Decide.{dec_le}
use devin2proxy.Pb.Writer.{
  varint, varint_loop, tag, write_packed_varints, write_string, write_raw_bytes, varints,
  write_uint64, write_varint, write_bool, write_double,
}
use devin2proxy.Wire.Each.{write_each}
use devin2proxy.Pb.Reader.{PbError, Reader, advance, read_varint}
use devin2proxy.Pb.Ends.{read_varint_ends}
use devin2proxy.Pb.Varint.{read_varint-varint}
use devin2proxy.Wire.Tools.{encode_chat_tool_call, encode_chat_tool_definition}
use devin2proxy.Wire.Metadata.{Metadata, no_metadata, append_to, encode_metadata}
use devin2proxy.Wire.Prompt.{no_prompt, encode_chat_message_prompt}
use devin2proxy.Wire.Configuration.{encode_completion_configuration}
use devin2proxy.Wire.Trajectory.{encode_trajectory_reference, new_trajectory_reference}
use devin2proxy.Wire.Request.{
  GetChatMessageRequest, no_request, decode_get_chat_message_request,
  encode_get_chat_message_request,
}
use devin2proxy.Wire.Request.RoundTrip.{
  decode_get_chat_message_request-encode_get_chat_message_request,
}

abbrev third_of_bytes : Reader
third_of_bytes = record { buf = 9 ∷ varint [] 300 ++ (7 ∷ []); i = 1; err = none }

read_varint-varint_example :
    (read_varint third_of_bytes ≡ (300, advance third_of_bytes (length (varint [] 300))))
    × (drop (1 + length (varint [] 300)) third_of_bytes.buf ≡ 7 ∷ [])
read_varint-varint_example = read_varint-varint third_of_bytes 300 (7 ∷ []) (omega arith) refl

-- Ten bytes that all ask for more.
abbrev endless : Reader
endless = record {
  buf = 255 ∷ 255 ∷ 255 ∷ 255 ∷ 255 ∷ 255 ∷ 255 ∷ 255 ∷ 255 ∷ 255 ∷ [];
  i = 0;
  err = none;
}

read_varint_ends_example : (read_varint endless).1.err ≢ some PbError.out_of_rounds
read_varint_ends_example = read_varint_ends endless refl

abbrev chat_metadata : Metadata
chat_metadata = record no_metadata { api_key = codes "key"; field30 = 1 ∷ 300 ∷ [] }

abbrev chat : GetChatMessageRequest
chat = record no_request {
  metadata = some chat_metadata;
  prompt = codes "Be brief.";
  chat_message_prompts =
      record no_prompt {
        source = 1;
        prompt = codes "hi";
        tool_calls = record { id = codes "c1"; name = codes "ls"; arguments_json = [] } ∷ [];
        thinking_redacted = true;
      }
      ∷ [];
  request_type = 5;
  configuration = some (record {
    num_completions = 1;
    max_tokens = 128;
    max_newlines = 200;
    temperature = 0;
    top_k = 50;
    top_p = 0;
  });
  tools = record { name = codes "ls"; description = []; json_schema_string = codes "{}" } ∷ [];
  trajectory_ref = some (new_trajectory_reference (codes "id"));
  planner_mode = 1;
}

decode_get_chat_message_request-encode_get_chat_message_request_example :
    decode_get_chat_message_request (encode_get_chat_message_request chat) ≡ chat
unfolding new_trajectory_reference encode_metadata append_to write_packed_varints write_string
    write_raw_bytes varints varint varint_loop lt_wf dec_le tag encode_chat_message_prompt
    write_uint64 write_varint write_each write_bool encode_chat_tool_call
    encode_chat_tool_definition encode_completion_configuration write_double
    encode_trajectory_reference
decode_get_chat_message_request-encode_get_chat_message_request_example =
    decode_get_chat_message_request-encode_get_chat_message_request chat (
      ground arith,
      omega arith,
      ground arith,
      omega arith,
      ground arith,
      ground arith,
      ground arith,
      omega arith,
      omega arith,
      omega arith,
      omega arith,
      omega arith,
      refl,
      refl,
    )
