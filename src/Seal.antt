-- ===== src/Seal.antt =====
-- app/crypto: values are sealed before they leave the service, and opened where they come back.
pub mod Base64
pub mod Location
pub mod Checkpoint
