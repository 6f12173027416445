-- ===== src/Circuits.antt =====
-- Boolean circuits (include/core/protocols/interface/protocol_circuits.h), read on one element of
-- the vectors: a word is its row of bits, `pack_from` takes one bit of the element and
-- `unpack_from` writes one. The circuits use the protocol's xor, and, not and shifts only, so the
-- value that is shared goes through the same bit operations.
pub mod Bits
pub mod Ripple
pub mod RippleLaws
pub mod Prefix
pub mod PrefixWindows
pub mod PrefixLaws
pub mod Compare
pub mod CompareBits
pub mod Agreement
pub mod CompareLaws
