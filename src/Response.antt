-- ===== src/Response.antt =====
-- response/response.go
pub mod Defs
pub mod Laws
pub mod Handler
