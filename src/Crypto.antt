-- ===== src/Crypto.antt =====
-- internal/crypto: signatures over (view, configuration, block hash), and votes into certificates.
pub mod Encoding
pub mod Signer
pub mod Votes
pub mod Keys
