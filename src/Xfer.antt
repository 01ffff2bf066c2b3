-- ===== src/Xfer.antt =====
-- internal/xfer: the cards of the sync protocol and their wire format. The codec is in the children.
pub mod Card
pub mod Wire
pub mod Encode
pub mod Args
pub mod Payload
pub mod Decode
pub mod Frame
pub mod Message
mod Tests
