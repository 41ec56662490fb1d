-- ===== src/Registry.antt =====
-- src/registry: the configuration of a registry client, references to images, and the clients.
pub mod Libs
pub mod Config
pub mod OciReference
pub mod Capabilities
pub mod OciClient
pub mod CachingClient
