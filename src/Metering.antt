-- ===== src/Metering.antt =====
-- internal/metering: price tables, model families, and the estimated cost of a request.
pub mod Families
pub mod Prices
pub mod Cost
mod Tests
