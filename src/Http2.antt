-- ===== src/Http2.antt =====
-- The frames of HTTP/2: Cutelyst/Server/protocolhttp2.cpp.
pub mod Frames
pub mod Streams
pub mod Blocks
pub mod Handlers
pub mod Parse
mod Tests
