-- ===== src/FastCgi.antt =====
-- The FastCGI protocol: Cutelyst/Server/protocolfastcgi.cpp.
pub mod Params
pub mod Packets
pub mod Parse
pub mod Records
mod Tests
