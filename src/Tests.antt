-- ===== src/Tests.antt =====
-- Concrete libraries and inputs, and the tests and examples that run the model on them.
mod Toy
mod Inputs
mod Layers
mod Constraints
mod Keys
mod Storage
mod Caching
mod Signing
mod RawKeys
mod Log
mod Certification
