-- ===== src/Validator.antt =====
-- validator: validation of nested structs, with messages of their own.
pub mod Messages
pub mod TypeCache
pub mod Walk
pub mod Caching
pub mod Termination
pub mod Coverage
pub mod Reach
pub mod Valid
