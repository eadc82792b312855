-- ===== src/Repository.antt =====
-- repository: the tenant scope, the filter of updates, and the errors of the generic repository.
pub mod Tenant
pub mod Isolation
pub mod Creation
pub mod Updates
pub mod Whitelist
pub mod Upserts
pub mod Failures
pub mod Queries
pub mod Operations
pub mod Aggregates
pub mod Writes
pub mod Floats
pub mod FloatBounds
pub mod Pages
pub mod Tenancy
pub mod Enforcement
pub mod Guarded
pub mod Enforced
pub mod Calls
pub mod Guardian
pub mod PageBounds
