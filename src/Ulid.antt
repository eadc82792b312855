-- ===== src/Ulid.antt =====
-- ulid: identifiers, their forms in databases, JSON and texts, and their generator.
pub mod Defs
pub mod Generator
pub mod RoundTrip
pub mod Scanning
pub mod Batches
