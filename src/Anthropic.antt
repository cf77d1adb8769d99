-- ===== src/Anthropic.antt =====
-- internal/providers/anthropic: the adapter between OpenAI's chat format and Anthropic's messages.
-- Types has the structs of types.go, the other children the functions of transform.go and client.go.
pub mod Types
pub mod Images
pub mod Tools
pub mod Request
pub mod Response
pub mod Stream
mod Tests
