-- ===== src/Tests.antt =====
-- Runs of the code on concrete inputs.
mod Auth
mod Errors
mod Shutdown
mod Server
mod Lock
mod Consumer
mod Idempotency
mod ApiKey
mod Repository
mod Queries
mod Kafka
mod Sql
mod Ulid
mod Validator
