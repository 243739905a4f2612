-- ===== src/Codec.antt =====
-- The packet coder of bcap_core/src/bcap_common.c.
pub mod Buffer
pub mod Date
pub mod Encode
pub mod Wire
pub mod Received
pub mod Reader
pub mod Decode
mod Tests
