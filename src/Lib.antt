-- ===== src/Lib.antt =====
-- A model of sigstore-rs, the Rust library that verifies and makes the container signatures of
-- sigstore, and of what makes it correct. Paths below are from the repository's root.
--
-- The program. A signature of a container image is stored in the registry as an image of its own,
-- whose layers are JSON payloads that name the digest of the signed image; the manifest of that
-- image carries, as annotations of each layer, the signature, a certificate and a bundle of the
-- transparency log Rekor. A client (src/cosign/client.rs) finds the reference of that image, fetches
-- manifest and layers, and keeps the layers that it can trust (src/cosign/signature_layers.rs): the
-- payload's bytes and image digest, the bundle's signature by Rekor (src/cosign/bundle.rs), and the
-- certificate, which a pool of trusted certificates (src/crypto/certificate_pool.rs) must have issued
-- and which must have been valid when Rekor logged the signature (src/crypto/certificate.rs). The
-- user then asks constraints of the trusted layers (src/cosign/verification_constraint). To sign, a
-- new layer goes through constraints that change it (src/cosign/constraint), the last of which signs it
-- with a private key (src/crypto/signing_key), and is pushed. For signing without a kept key, a token
-- of the OpenID flow (src/oauth) gets a certificate from Fulcio (src/fulcio), and the signature is
-- logged in Rekor (src/rekor).
--
-- The files.
--   Prelude and its children: the names shared by all, results, byte strings, UTF-8, signed numbers.
--   HashMap: `HashMap<String, V>` as an association list.
--   Errors: src/errors.rs.
--   Crypto/Libs, Crypto/Pki: the functions of other crates that src/crypto calls, as records.
--   Crypto/Scheme: the signing schemes of src/crypto/mod.rs. Scheme/Names: printing and parsing.
--   Crypto/VerificationKey: src/crypto/verification_key.rs. VerificationKey/Accepts: when a key accepts
--     a signature. VerificationKey/Detection: how the kind of a key is found.
--   Crypto/Certificate: src/crypto/certificate.rs. Certificate/Usage and Certificate/Window: what the
--     checks ask for.
--   Crypto/CertificatePool: src/crypto/certificate_pool.rs. CertificatePool/Chains: the chains of a
--     pool. CertificatePool/Loading: the certificates of a pool.
--   Crypto/Kdf: src/crypto/signing_key/kdf.rs. Kdf/Sealing: encryption and decryption of keys.
--   Crypto/SigningKey: the other files of src/crypto/signing_key, with the key crates as a record. Its
--     children Ec, Ecdsa (src/crypto/signing_key/ecdsa), Ed25519, Rsa: the kinds of key pairs. KeyPair
--     and Signer: a key pair or a signer of any kind. Creating: new signers. Laws: what the crates
--     document. Pairs, Matching, Making, Verifying, Using, Importing, Roundtrip: reading key pairs,
--     signers and schemes, signing and verifying, export and import.
--   Registry/Libs, Registry/Config, Registry/OciReference: oci_distribution as a record, and
--     src/registry/config.rs and src/registry/oci_reference.rs.
--   Registry/Capabilities: the trait of src/registry/mod.rs. Registry/OciClient: src/registry/
--     oci_client.rs. Registry/CachingClient: src/registry/oci_caching_client.rs; its children
--     Attribute (the cached crate), Freshness, Runs, Answers and Sharing say what a cached answer is
--     and who gets it.
--   Cosign/Payload: src/cosign/payload/simple_signing.rs. Payload/Annotations: required annotations.
--   Cosign/Bundle: src/cosign/bundle.rs, with serde_json as a record. Cosign/Constants: the constants.
--   Cosign/CertificateSignature and Cosign/SignatureLayer: src/cosign/signature_layers.rs. Their
--     children Trusted and Building: what is trusted, and which layers are built.
--   Cosign/VerificationConstraint: the verifiers and `verify_constraints` of src/cosign/mod.rs; the
--     children Checking and Identity say when they hold.
--   Cosign/Constraint: the constraints that change a layer and `apply_constraints`; the children
--     Marking and Signing say what they leave, PrivateKey makes a signer from the file of a key.
--   Cosign/Client, Cosign/ClientBuilder, Cosign/Blob: the client, its builder, blob verification.
--     Client/Fetching, Publishing and Tags: what is fetched, uploaded, and named by `triangulate`.
--   Tuf: src/tuf, which gives the client Rekor's key and Fulcio's certificates, over tough and a file
--     system. Tuf/Caching: the local cache.
--   Rekor: src/rekor/apis/mod.rs and configuration.rs. Rekor/Models: src/rekor/models. Rekor/Response
--     and Rekor/Apis: the calls of src/rekor/apis. Rekor/LogEntry: reading an entry. Rekor/Slices and
--     Rekor/Statuses: the shape of an answer, and the answers that are errors.
--   OpenId: src/oauth/openidflow.rs. OpenId/Listening: the code that is taken.
--   Fulcio: src/fulcio. Fulcio/Request: what the request for a certificate holds.
--   Tests and its children: small concrete libraries, inputs, tests and one example per result.
--
-- How the code is modelled. A fallible function returns a `Result` (`Outcome` has `SigstoreError`). A
-- layer that is changed through a `&mut` comes back beside the result, also where that is an error. An
-- `async` call of the registry is a function from the registry's state to its answer and the new
-- state. A trait object is a record of its methods or, where it has one method, a function. The system
-- clock is the argument `now`. Loops are structural recursion over their list, so no fuel is needed
-- except in the decimal printing of a `usize`, whose twenty digits hold every 64-bit number. The code
-- iterates a `HashMap` in no fixed order; here it is the order of the list. The types and functions of
-- other crates (rsa, ecdsa, ed25519, picky, x509_cert, serde_json, oci_distribution and so on) are
-- parameters: a record of functions without laws. Where a result relies on a law of theirs, such as
-- that base64 decoding undoes encoding, the law is a hypothesis of that result. A call that may panic
-- (an `expect` of the TUF cache or of a log entry, the slices of the secret box and of the log's
-- answers) returns an `Option` whose `none` is the panic. The clock of a cached call counts seconds;
-- the runs of the caching client are sequences of calls, since the attribute lets one call of a
-- function run at a time. Random numbers are an argument, a function from a place to a byte. The texts
-- of HTTP answers are given by their UTF-8 bytes. The derived text of an error is an argument where
-- another error holds it.
--
-- What is not modelled: formatting for display and logging; constructors that copy their arguments;
-- the test double of the registry client; the TUF protocol, which is tough's; the feature native-tls.
pub mod Prelude
pub mod HashMap
pub mod Errors
pub mod Crypto
pub mod Registry
pub mod Cosign
pub mod Tuf
pub mod Rekor
pub mod OpenId
pub mod Fulcio
pub mod Tests
