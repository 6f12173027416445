-- ===== src/Operators.antt =====
-- Relational operators (include/core/operators) that are built on the protocols.
pub mod Pairwise
pub mod PairwiseLaws
pub mod Shuffle
pub mod RadixSort
pub mod PaddedSort
pub mod TableSort
pub mod SortDraws
pub mod TreePrefixSum
pub mod PrefixNetwork
pub mod Aggregation
