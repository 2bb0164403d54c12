-- ===== src/Security.antt =====
-- What the API checks of its callers: apps/api/src/proofstep_api/security.
pub mod Limits
pub mod Permissions
pub mod Tokens
pub mod Cursors
pub mod Access
pub mod Requests
pub mod Examples
