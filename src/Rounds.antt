-- ===== src/Rounds.antt =====
-- The two loops that every query of internal/etherfi is made of: trials over failing nodes, and
-- chunks of a list that is too long for one call.
pub mod Chunks
pub mod Trials
