-- ===== src/Examples.antt =====
-- The code and the theorems on concrete values.
mod Wire
mod Store
mod Fragments
mod Clients
mod Network
mod Handshakes
mod Files
mod Jobs
mod Connections
