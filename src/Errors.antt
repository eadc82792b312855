-- ===== src/Errors.antt =====
-- errors/errors.go: error values, their codes, and the conversions to gRPC and HTTP.
pub mod Values
pub mod Grpc
pub mod Http
pub mod Laws
