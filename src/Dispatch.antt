-- ===== src/Dispatch.antt =====
-- How a request finds its action: Cutelyst/action.cpp, Cutelyst/dispatchtypepath.cpp,
-- Cutelyst/dispatchtypechained.cpp and Cutelyst/dispatcher.cpp.
pub mod Actions
pub mod Paths
pub mod Prepare
pub mod Chained
pub mod Chains
pub mod Uris
mod Tests
