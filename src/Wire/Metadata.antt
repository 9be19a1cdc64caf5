-- ===== src/Wire/Metadata.antt =====
-- internal/devin/wire.go: the metadata of a request, whose field 30 is a packed run of varints.
pub mod RoundTrip
use devin2proxy.Prelude.{
  ℕ, ◌+◌, ◌-◌, ◌^◌, ◌<◌, ◌≤◌, ◌≡◌, ◌≢◌, refl, sym, ap, ◌∙◌, subst, inl, inr, zero, suc, Bool, true,
  false, not, ◌&&◌, ◌||◌, Option, none, some, List, [], ◌∷◌, ◌++◌, All, Bytes, arith, ltb, leb,
  ◌==◌, if◌then◌else◌, length, take, drop, append-nil, append_assoc, length-append,
}
use devin2proxy.Pb.Writer.{
  wire_varint, wire_bytes, wire_fixed64, wire_fixed32, write_uint64, write_varint, write_string,
  write_bool, write_double, write_raw_bytes, write_packed_varints, varints, varint,
}
use devin2proxy.Pb.Reader.{
  Reader, new_reader, failed, remaining, advance, read_varint, read_bytes, read_bool, read_double,
  skip,
}
use devin2proxy.Wire.Loop.{decode, Leads, Leads-empty, decode-Leads}
use devin2proxy.Wire.Writes.{
  Leads-write_uint64, Leads-write_varint, Leads-write_string, Leads-write_bool, Leads-write_double,
  Leads-write_raw_bytes,
}
use devin2proxy.Wire.Each.{write_each, Leads-write_each}
use devin2proxy.Wire.Tools.{
  store, skipped, Fits, ToolCallFits, ToolDefinitionFits, ImageFits, ChatToolCall,
  ChatToolDefinition, ImageData, decode_chat_tool_call, decode_chat_tool_definition,
  decode_image_data, encode_chat_tool_call, encode_chat_tool_definition, encode_image_data,
}
use devin2proxy.Wire.Numbers.{
  md_ide_name, md_extension_version, md_api_key, md_locale, md_os, md_ide_version,
  md_extension_name, md_field28, md_field30, md_field31,
}

-- `for sub.Remaining() > 0`: a varint takes a byte at least, so that one round more than there are bytes
-- is enough.
unfoldable pub unpack_loop : ℕ → Reader → List ℕ → List ℕ
unpack_loop zero r vals = vals
unpack_loop (suc rounds) r vals =
    let (v, r') = read_varint r in
    let rest = unpack_loop rounds r' (vals ++ (v ∷ [])) in
    if remaining r == 0 then vals else if failed r' then vals else rest

unfoldable pub unpack : Bytes → List ℕ → List ℕ
unpack b vals = unpack_loop (suc (length b)) (new_reader b) vals

pub record Metadata : Type 0 where
  pub ide_name : Bytes
  pub extension_version : Bytes
  pub api_key : Bytes
  pub locale : Bytes
  pub os : Bytes
  pub ide_version : Bytes
  pub extension_name : Bytes
  pub field28 : Bytes
  pub field30 : List ℕ
  pub field31 : Bytes

abbrev pub no_metadata : Metadata
no_metadata = record {
  ide_name = [];
  extension_version = [];
  api_key = [];
  locale = [];
  os = [];
  ide_version = [];
  extension_name = [];
  field28 = [];
  field30 = [];
  field31 = [];
}

unfoldable pub metadata_field : ℕ → ℕ → Reader → Metadata → Metadata × Reader
metadata_field f w r out =
    if f == md_ide_name && w == wire_bytes
    then store (read_bytes r) (λ x. record out { ide_name = x })
    else if f == md_extension_version && w == wire_bytes
    then store (read_bytes r) (λ x. record out { extension_version = x })
    else if f == md_api_key && w == wire_bytes
    then store (read_bytes r) (λ x. record out { api_key = x })
    else if f == md_locale && w == wire_bytes
    then store (read_bytes r) (λ x. record out { locale = x })
    else if f == md_os && w == wire_bytes
    then store (read_bytes r) (λ x. record out { os = x })
    else if f == md_ide_version && w == wire_bytes
    then store (read_bytes r) (λ x. record out { ide_version = x })
    else if f == md_extension_name && w == wire_bytes
    then store (read_bytes r) (λ x. record out { extension_name = x })
    else if f == md_field28 && w == wire_bytes
    then store (read_bytes r) (λ x. record out { field28 = x })
    else if f == md_field30 && w == wire_varint
    then store (read_varint r) (λ x. record out { field30 = out.field30 ++ (x ∷ []) })
    else if f == md_field30 && w == wire_bytes
    then store (read_bytes r) (λ b. record out { field30 = unpack b out.field30 })
    else if f == md_field31 && w == wire_bytes
    then store (read_bytes r) (λ x. record out { field31 = x })
    else skipped r w out

unfoldable pub decode_metadata : Bytes → Metadata
decode_metadata b = (decode metadata_field no_metadata b).0

-- `appendTo`
unfoldable pub append_to : Metadata → Bytes → Bytes
append_to m w =
    let w = write_string w md_ide_name m.ide_name in
    let w = write_string w md_extension_version m.extension_version in
    let w = write_string w md_api_key m.api_key in
    let w = write_string w md_locale m.locale in
    let w = write_string w md_os m.os in
    let w = write_string w md_ide_version m.ide_version in
    let w = write_string w md_extension_name m.extension_name in
    let w = write_string w md_field28 m.field28 in
    let w = write_packed_varints w md_field30 m.field30 in write_string w md_field31 m.field31

unfoldable pub encode_metadata : Metadata → Bytes
encode_metadata m = append_to m []

unfoldable pub encode_metadata_request : Metadata → Bytes
encode_metadata_request m = write_raw_bytes [] 1 (encode_metadata m)

abbrev pub Uint64 : ℕ → Type 0
Uint64 v = v < 2 ^ 64

abbrev pub MetadataFits : Metadata → Type 0
MetadataFits m =
    Fits m.ide_name
    × Fits m.extension_version
    × Fits m.api_key
    × Fits m.locale
    × Fits m.os
    × Fits m.ide_version
    × Fits m.extension_name
    × Fits m.field28
    × All Uint64 m.field30
    × Fits (varints [] m.field30)
    × Fits m.field31
