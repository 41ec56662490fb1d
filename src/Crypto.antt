-- ===== src/Crypto.antt =====
-- src/crypto: signing schemes, keys, certificates and the encryption of private keys.
pub mod Kdf
pub mod Libs
pub mod Scheme
pub mod VerificationKey
pub mod Pki
pub mod Certificate
pub mod CertificatePool
pub mod SigningKey
