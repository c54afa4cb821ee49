-- ===== src/Policy.antt =====
-- The sealed spend policy (internal/policy): its body, the pure evaluation of a spend, the durable
-- rolling-24h counter, the engine that reserves spend before anything is signed, the administration
-- of the body, and the rotation of the admin passphrase.
pub mod Body
pub mod Evaluate
pub mod Counter
pub mod Seal
pub mod Writer
pub mod Engine
pub mod Admin
pub mod Rotation
mod Tests
