-- ===== src/Stream.antt =====
-- The corporate action stream: src/corporate_actions. A `String` or `&str` is the list of its UTF-8
-- bytes.
pub mod Utf8
pub mod Event
pub mod Lines
pub mod Frame
pub mod Decoder
pub mod Endpoint
pub mod Connect
