-- ===== src/Example.antt =====
-- The programs under example/ that use the library.
pub mod TcpEcho
pub mod Clients
pub mod Setups
