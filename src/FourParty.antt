-- ===== src/FourParty.antt =====
-- The four-party protocol with one malicious rank
-- (include/core/protocols/dalskov_4pc.h): a value is the sum of four shares, rank `p` holds all but
-- share `p`, and every message is sent by one rank and vouched for by the hash of another.
pub mod Ranks
pub mod RankLaws
pub mod Shares
pub mod ShareLaws
pub mod Jmp
pub mod Inp
pub mod InpLaws
pub mod Multiply
pub mod ProductLaws
pub mod CheckLaws
pub mod MultiplyLaws
pub mod DivisionLaws
pub mod ConvertLaws
pub mod Detection
pub mod DotProductLaws
pub mod SharingLaws
pub mod TruncateLaws
pub mod DetectionLaws
