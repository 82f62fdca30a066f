-- ===== src/Hpack.antt =====
-- HTTP/2 header compression: Cutelyst/Server/hpack.cpp, hpack.h and the tables of hpack_p.cpp.
pub mod Integer
pub mod Strings
pub mod Table
pub mod Tables
pub mod Decoder
pub mod Encoder
