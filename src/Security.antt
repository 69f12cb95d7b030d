-- ===== src/Security.antt =====
-- libs/security: CryptoEngine, the authenticated encryption of every payload.
pub mod Chacha20
pub mod Poly1305
pub mod Engine
