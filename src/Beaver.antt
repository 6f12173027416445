-- ===== src/Beaver.antt =====
-- The semi-honest protocol of two parties with Beaver triples
-- (include/core/protocols/beaver_2pc.h). A function of both ranks is indexed by the rank; what one
-- rank computes reads only its own values and what it receives.
pub mod Shares
pub mod ShareLaws
pub mod Multiply
pub mod MultiplyLaws
pub mod Generated
