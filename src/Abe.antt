-- ===== src/Abe.antt =====
-- core/crypto/abe.py: the access policies and the simulated attribute-based encryption, by parts.
pub mod Tokens
pub mod Grammar
pub mod Agreement
pub mod Fuel
pub mod Access
pub mod Formula
pub mod Spelling
pub mod Kem
pub mod Release
