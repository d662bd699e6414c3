-- ===== src/Codec.antt =====
-- src/zmqtt/_internal/packets/codec.py: packets to bytes and back.
pub mod Bodies
pub mod Encode
pub mod Steps
pub mod Decode
pub mod Reading
pub mod Frame
pub mod Received
pub mod RoundTrip
