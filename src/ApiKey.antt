-- ===== src/ApiKey.antt =====
-- middleware/apikey.go: authentication by API keys.
pub mod Defs
pub mod Laws
