-- ===== src/Reaction.antt =====
-- What kinds of people make of a story.
pub mod Relay
mod Tests
