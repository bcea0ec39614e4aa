-- ===== src/Server.antt =====
-- The server that drives the simulation.
pub mod Clock
mod Tests
