-- ===== src/Gemini.antt =====
-- internal/providers/gemini: the translation between OpenAI's wire format and Gemini's.
pub mod Types
pub mod Parts
pub mod Request
pub mod Contents
pub mod Response
pub mod Stream
mod Tests
