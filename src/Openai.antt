-- ===== src/Openai.antt =====
-- internal/openai/translate.go: the text and the tool calls on their way back to the client.
pub mod Stop
pub mod ToolCalls
