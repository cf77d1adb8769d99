-- ===== src/Clients.antt =====
-- internal/providers: the clients that send a request to a provider and read its answer.
pub mod Http
pub mod Anthropic
pub mod Gemini
pub mod Compat
pub mod OpenAi
pub mod Errors
pub mod Headers
mod Tests
