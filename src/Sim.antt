-- ===== src/Sim.antt =====
-- The graph, the contagion on it with its seeds and random numbers, and the frames that carry the state to the
-- client.
pub mod Random
pub mod Contagion
pub mod Seeding
pub mod Frames
pub mod Graph
pub mod Parallel
pub mod Opinion
pub mod DayNight
pub mod Core
pub mod Street
pub mod Media
pub mod History
pub mod Numbers
mod Tests
