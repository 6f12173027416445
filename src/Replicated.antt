-- ===== src/Replicated.antt =====
-- The semi-honest protocol of three parties with replicated shares
-- (include/core/protocols/replicated_3pc.h). Rank `p` holds the shares `p` and `p + 1`.
-- A function of all ranks is indexed by the rank; what one rank computes reads only its own
-- values and what it receives.
pub mod Shares
pub mod ShareLaws
pub mod Multiply
pub mod TruncateLaws
pub mod MultiplyLaws
pub mod Convert
pub mod ConvertLaws
pub mod DotProduct
pub mod DotProductLaws
