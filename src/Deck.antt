-- ===== src/Deck.antt =====
-- internal/deck: the manifest format.
pub mod Encode
mod Tests
pub mod Artifact
pub mod Marshal
pub mod Checksum
pub mod Parse
pub mod Carried
pub mod Hash
pub mod RoundTrip
pub mod Refused
