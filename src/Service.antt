-- ===== src/Service.antt =====
-- The send pipeline of the service (internal/service): checking, building, signing, sending, replacing,
-- abandoning and what a restart does, on the journal and the policy engine together.
pub mod Artifact
pub mod Funding
pub mod Broadcast
pub mod World
pub mod Send
pub mod Signing
pub mod FeeRate
pub mod Validate
pub mod Replace
pub mod Bump
pub mod Restart
pub mod Abandon
mod Example
mod Tests
