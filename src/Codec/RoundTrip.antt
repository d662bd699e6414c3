-- ===== src/Codec/RoundTrip.antt =====
-- codec.py: `decode` against `encode`, packet type by packet type.
pub mod Replies
pub mod Lists
pub mod Connects
pub mod Bodies
pub mod Whole
