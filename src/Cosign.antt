-- ===== src/Cosign.antt =====
-- src/cosign: payloads, bundles, signature layers, constraints and the client.
pub mod Payload
pub mod Bundle
pub mod Constants
pub mod CertificateSignature
pub mod SignatureLayer
pub mod VerificationConstraint
pub mod Constraint
pub mod Client
pub mod ClientBuilder
pub mod Blob
