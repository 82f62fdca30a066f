-- ===== src/WebSocket.antt =====
-- The WebSocket protocol: Cutelyst/Server/protocolwebsocket.cpp, with the websocket_ members and
-- the enumerations of ProtoRequestHttp (Cutelyst/Server/protocolhttp.h).
pub mod Frames
pub mod Receive
pub mod Parse
mod Tests
