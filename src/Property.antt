-- ===== src/Property.antt =====
-- src/zmqtt/_internal/packets/properties.py: the identifiers, the encoding of a block of
-- properties, and the typed classes.
pub mod Ids
pub mod Block
pub mod Rounds
pub mod Entries
pub mod Fields
pub mod Class
pub mod Connect
pub mod ConnAck
pub mod Publish
pub mod Subscribe
pub mod Disconnect
