-- ===== src/Random.antt =====
-- Randomness and correlations (include/core/random).
pub mod Prg
pub mod ZeroSharing
pub mod Triples
pub mod Permutation
pub mod PermutationManager
pub mod Pool
