-- ===== src/Http.antt =====
-- HTTP/1: Cutelyst/Server/protocolhttp.cpp, class ProtocolHttp and its request ProtoRequestHttp.
pub mod Lines
pub mod Requests
pub mod Parse
pub mod Responses
mod Tests
