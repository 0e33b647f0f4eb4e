-- ===== src/Network.antt =====
-- The coordinator of the connections: src/Network/NmConnection.h, NmConnection.cpp,
-- NmRoutingPolicy.h and the policy of GatewayCandidate.cpp.
pub mod Routing
pub mod State
pub mod Coordinator
pub mod Switching
pub mod Backlog
pub mod Deferral
pub mod Blocking
pub mod Filters
pub mod Candidate
