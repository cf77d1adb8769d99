-- ===== src/Endpoints.antt =====
-- internal/gateway/audio.go, speech.go and embeddings.go: the endpoints beside chat completions.
pub mod Settings
pub mod Multipart
pub mod Audio
pub mod Speech
pub mod Embeddings
pub mod Guarded
mod Tests
