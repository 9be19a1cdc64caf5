-- ===== src/Wire/Numbers.antt =====
-- internal/devin/wire.go: the field numbers of the messages.
use devin2proxy.Prelude.{ℕ}

-- GetChatMessageRequest
abbrev pub req_metadata : ℕ
req_metadata = 1

abbrev pub req_prompt : ℕ
req_prompt = 2

abbrev pub req_chat_message_prompts : ℕ
req_chat_message_prompts = 3

abbrev pub req_request_type : ℕ
req_request_type = 7

abbrev pub req_configuration : ℕ
req_configuration = 8

abbrev pub req_tools : ℕ
req_tools = 10

abbrev pub req_trajectory_ref : ℕ
req_trajectory_ref = 15

abbrev pub req_cascade_id : ℕ
req_cascade_id = 16

abbrev pub req_planner_mode : ℕ
req_planner_mode = 20

abbrev pub req_chat_model_uid : ℕ
req_chat_model_uid = 21

abbrev pub req_execution_id : ℕ
req_execution_id = 22

abbrev pub req_field28 : ℕ
req_field28 = 28

-- GetChatMessageResponse
abbrev pub resp_message_id : ℕ
resp_message_id = 1

abbrev pub resp_timestamp : ℕ
resp_timestamp = 2

abbrev pub resp_delta_text : ℕ
resp_delta_text = 3

abbrev pub resp_delta_tokens : ℕ
resp_delta_tokens = 4

abbrev pub resp_stop_reason : ℕ
resp_stop_reason = 5

abbrev pub resp_delta_tool_calls : ℕ
resp_delta_tool_calls = 6

abbrev pub resp_usage : ℕ
resp_usage = 7

abbrev pub resp_redact : ℕ
resp_redact = 8

abbrev pub resp_delta_thinking : ℕ
resp_delta_thinking = 9

abbrev pub resp_delta_signature : ℕ
resp_delta_signature = 10

abbrev pub resp_thinking_redact : ℕ
resp_thinking_redact = 11

abbrev pub resp_latency : ℕ
resp_latency = 12

abbrev pub resp_request_id : ℕ
resp_request_id = 17

abbrev pub resp_actual_model_uid : ℕ
resp_actual_model_uid = 23

abbrev pub resp_dimension_groups : ℕ
resp_dimension_groups = 28

-- Metadata
abbrev pub md_ide_name : ℕ
md_ide_name = 1

abbrev pub md_extension_version : ℕ
md_extension_version = 2

abbrev pub md_api_key : ℕ
md_api_key = 3

abbrev pub md_locale : ℕ
md_locale = 4

abbrev pub md_os : ℕ
md_os = 5

abbrev pub md_ide_version : ℕ
md_ide_version = 7

abbrev pub md_extension_name : ℕ
md_extension_name = 12

abbrev pub md_field28 : ℕ
md_field28 = 28

abbrev pub md_field30 : ℕ
md_field30 = 30

abbrev pub md_field31 : ℕ
md_field31 = 31

-- ChatMessagePrompt
abbrev pub cmp_message_id : ℕ
cmp_message_id = 1

abbrev pub cmp_source : ℕ
cmp_source = 2

abbrev pub cmp_prompt : ℕ
cmp_prompt = 3

abbrev pub cmp_tool_calls : ℕ
cmp_tool_calls = 6

abbrev pub cmp_tool_call_id : ℕ
cmp_tool_call_id = 7

abbrev pub cmp_tool_result_is_error : ℕ
cmp_tool_result_is_error = 9

abbrev pub cmp_images : ℕ
cmp_images = 10

abbrev pub cmp_thinking : ℕ
cmp_thinking = 11

abbrev pub cmp_signature : ℕ
cmp_signature = 12

abbrev pub cmp_thinking_redacted : ℕ
cmp_thinking_redacted = 13

-- CompletionConfiguration
abbrev pub cc_num_completions : ℕ
cc_num_completions = 1

abbrev pub cc_max_tokens : ℕ
cc_max_tokens = 2

abbrev pub cc_max_newlines : ℕ
cc_max_newlines = 3

abbrev pub cc_temperature : ℕ
cc_temperature = 5

abbrev pub cc_top_k : ℕ
cc_top_k = 7

abbrev pub cc_top_p : ℕ
cc_top_p = 8

-- ModelUsageStats
abbrev pub mus_input_tokens : ℕ
mus_input_tokens = 2

abbrev pub mus_output_tokens : ℕ
mus_output_tokens = 3

abbrev pub mus_cache_write_tokens : ℕ
mus_cache_write_tokens = 4

abbrev pub mus_cache_read_tokens : ℕ
mus_cache_read_tokens = 5

abbrev pub mus_model_uid : ℕ
mus_model_uid = 9

-- TrajectoryReference
abbrev pub tr_trajectory_id : ℕ
tr_trajectory_id = 1

abbrev pub tr_trajectory_type : ℕ
tr_trajectory_type = 3

abbrev pub tr_field4 : ℕ
tr_field4 = 4
