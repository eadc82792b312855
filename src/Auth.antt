-- ===== src/Auth.antt =====
pub mod Types
pub mod Nonces
pub mod Signature
pub mod Payload
pub mod Signer
pub mod Verifier
pub mod Soundness
pub mod Replay
pub mod RoundTrip
pub mod Headers
pub mod Middleware
