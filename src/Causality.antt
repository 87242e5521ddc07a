-- ===== src/Causality.antt =====
-- Causal reasoning: the rules, the engine, and what it concludes.
pub mod Loader
pub mod Models
pub mod Rules
pub mod Search
pub mod Engine
pub mod Chain
pub mod Reach
pub mod Candidates
pub mod Determinism
