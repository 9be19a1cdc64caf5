-- ===== src/Wire/Configuration.antt =====
-- internal/devin/wire.go: the completion configuration and the usage counts. A float is its bits.
use devin2proxy.Prelude.{ℕ, ◌^◌, ◌<◌, ◌≡◌, ◌≢◌, refl, ◌&&◌, [], Bytes, arith, ◌==◌, if◌then◌else◌}
use devin2proxy.Pb.Writer.{wire_varint, wire_bytes, wire_fixed64, write_uint64, write_double}
use devin2proxy.Pb.Reader.{Reader, read_varint, read_bytes, read_double}
use devin2proxy.Wire.Loop.{decode, Leads-empty, decode-Leads}
use devin2proxy.Wire.Writes.{Leads-write_uint64, Leads-write_double}
use devin2proxy.Wire.Tools.{store, skipped}
use devin2proxy.Wire.Numbers.{
  cc_num_completions, cc_max_tokens, cc_max_newlines, cc_temperature, cc_top_k, cc_top_p,
}
use devin2proxy.Wire.Numbers.{
  mus_input_tokens, mus_output_tokens, mus_cache_write_tokens, mus_cache_read_tokens, mus_model_uid,
}

pub record CompletionConfiguration : Type 0 where
  pub num_completions : ℕ
  pub max_tokens : ℕ
  pub max_newlines : ℕ
  pub temperature : ℕ
  pub top_k : ℕ
  pub top_p : ℕ

abbrev pub no_configuration : CompletionConfiguration
no_configuration = record {
  num_completions = 0;
  max_tokens = 0;
  max_newlines = 0;
  temperature = 0;
  top_k = 0;
  top_p = 0;
}

unfoldable pub configuration_field :
    ℕ → ℕ → Reader → CompletionConfiguration → CompletionConfiguration × Reader
configuration_field f w r out =
    if f == cc_num_completions && w == wire_varint
    then store (read_varint r) (λ x. record out { num_completions = x })
    else if f == cc_max_tokens && w == wire_varint
    then store (read_varint r) (λ x. record out { max_tokens = x })
    else if f == cc_max_newlines && w == wire_varint
    then store (read_varint r) (λ x. record out { max_newlines = x })
    else if f == cc_temperature && w == wire_fixed64
    then store (read_double r) (λ x. record out { temperature = x })
    else if f == cc_top_k && w == wire_varint
    then store (read_varint r) (λ x. record out { top_k = x })
    else if f == cc_top_p && w == wire_fixed64
    then store (read_double r) (λ x. record out { top_p = x })
    else skipped r w out

unfoldable pub decode_completion_configuration : Bytes → CompletionConfiguration
decode_completion_configuration b = (decode configuration_field no_configuration b).0

unfoldable pub encode_completion_configuration : CompletionConfiguration → Bytes
encode_completion_configuration config =
    let sub = write_uint64 [] cc_num_completions config.num_completions in
    let sub = write_uint64 sub cc_max_tokens config.max_tokens in
    let sub = write_uint64 sub cc_max_newlines config.max_newlines in
    let sub = write_double sub cc_temperature config.temperature in
    let sub = write_uint64 sub cc_top_k config.top_k in write_double sub cc_top_p config.top_p

abbrev pub ConfigurationFits : CompletionConfiguration → Type 0
ConfigurationFits config =
    (config.num_completions < 2 ^ 64)
    × (config.max_tokens < 2 ^ 64)
    × (config.max_newlines < 2 ^ 64)
    × ((config.temperature < 2 ^ 64) × (config.temperature ≢ 2 ^ 63))
    × (config.top_k < 2 ^ 64)
    × ((config.top_p < 2 ^ 64) × (config.top_p ≢ 2 ^ 63))

pub record ModelUsageStats : Type 0 where
  pub input_tokens : ℕ
  pub output_tokens : ℕ
  pub cache_write_tokens : ℕ
  pub cache_read_tokens : ℕ
  pub model_uid : Bytes

abbrev pub no_usage : ModelUsageStats
no_usage = record {
  input_tokens = 0;
  output_tokens = 0;
  cache_write_tokens = 0;
  cache_read_tokens = 0;
  model_uid = [];
}

unfoldable pub usage_field : ℕ → ℕ → Reader → ModelUsageStats → ModelUsageStats × Reader
usage_field f w r out =
    if f == mus_input_tokens && w == wire_varint
    then store (read_varint r) (λ x. record out { input_tokens = x })
    else if f == mus_output_tokens && w == wire_varint
    then store (read_varint r) (λ x. record out { output_tokens = x })
    else if f == mus_cache_write_tokens && w == wire_varint
    then store (read_varint r) (λ x. record out { cache_write_tokens = x })
    else if f == mus_cache_read_tokens && w == wire_varint
    then store (read_varint r) (λ x. record out { cache_read_tokens = x })
    else if f == mus_model_uid && w == wire_bytes
    then store (read_bytes r) (λ x. record out { model_uid = x })
    else skipped r w out

unfoldable pub decode_model_usage_stats : Bytes → ModelUsageStats
decode_model_usage_stats b = (decode usage_field no_usage b).0

pub decode_completion_configuration-encode_completion_configuration :
    (config : CompletionConfiguration)
    → ConfigurationFits config
    → decode_completion_configuration (encode_completion_configuration config) ≡ config
unfolding decode_completion_configuration encode_completion_configuration configuration_field
decode_completion_configuration-encode_completion_configuration config (h0, h1, h2, h3, h4, h5) =
    let start = no_configuration in
    let l0 = Leads-empty configuration_field start in
    let l1 =
      Leads-write_uint64 configuration_field start (λ x. record start { num_completions = x }) []
        cc_num_completions config.num_completions (omega arith) (omega arith) h0 (λ r. refl) l0 in
    let l2 =
      Leads-write_uint64 configuration_field start
        (λ x. record start { num_completions = config.num_completions; max_tokens = x }) _
        cc_max_tokens config.max_tokens (omega arith) (omega arith) h1 (λ r. refl) l1 in
    let l3 =
      Leads-write_uint64 configuration_field start
        (λ x. record start {
          num_completions = config.num_completions;
          max_tokens = config.max_tokens;
          max_newlines = x;
        })
        _ cc_max_newlines config.max_newlines (omega arith) (omega arith) h2 (λ r. refl) l2 in
    let l4 =
      Leads-write_double configuration_field start
        (λ x. record start {
          num_completions = config.num_completions;
          max_tokens = config.max_tokens;
          max_newlines = config.max_newlines;
          temperature = x;
        })
        _ cc_temperature config.temperature (omega arith) (omega arith) h3.0 h3.1 (λ r. refl) l3 in
    let l5 =
      Leads-write_uint64 configuration_field start
        (λ x. record start {
          num_completions = config.num_completions;
          max_tokens = config.max_tokens;
          max_newlines = config.max_newlines;
          temperature = config.temperature;
          top_k = x;
        })
        _ cc_top_k config.top_k (omega arith) (omega arith) h4 (λ r. refl) l4 in
    let l6 =
      Leads-write_double configuration_field start
        (λ x. record start {
          num_completions = config.num_completions;
          max_tokens = config.max_tokens;
          max_newlines = config.max_newlines;
          temperature = config.temperature;
          top_k = config.top_k;
          top_p = x;
        })
        _ cc_top_p config.top_p (omega arith) (omega arith) h5.0 h5.1 (λ r. refl) l5 in
    (decode-Leads configuration_field start config _ l6).0
