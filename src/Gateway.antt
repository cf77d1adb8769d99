-- ===== src/Gateway.antt =====
-- internal/gateway: the errors of a provider's call, its retries, and the way through the breaker
-- to a fallback.
pub mod Errors
pub mod Retry
pub mod Calls
pub mod Meter
mod Tests
