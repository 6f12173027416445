-- ===== src/Tests/CircuitTests.antt =====
-- Runs of the circuits on bytes.
use crypt_dough.Base.{◌+◌, ◌%◌, ◌^◌, ◌≡◌, arith, ltb, ◌==◌, true, false, not}
use crypt_dough.Circuits.Bits.{bit_value, value}
use crypt_dough.Circuits.Ripple.{ripple_carry_adder}
use crypt_dough.Circuits.Prefix.{parallel_prefix_adder}
use crypt_dough.Circuits.PrefixLaws.{value-parallel_prefix_adder, parallel_prefix_adder-even_shares}
use crypt_dough.Circuits.Compare.{compare_words}
use crypt_dough.Circuits.CompareLaws.{offset_value, compare_words-order}
use crypt_dough.Tests.{bits_of}

value-parallel_prefix_adder_example :
    value 8 (parallel_prefix_adder true (bits_of 200) (bits_of 99) 8 true)
    ≡ (value 8 (bits_of 200) + value 8 (bits_of 99) + bit_value true) % 2 ^ 8
value-parallel_prefix_adder_example = value-parallel_prefix_adder (bits_of 200) (bits_of 99) true 8

parallel_prefix_adder-even_shares_example :
    parallel_prefix_adder false (bits_of 20) (bits_of 99) 8 true 0
    ≡ not (ripple_carry_adder 8 (bits_of 20) (bits_of 99) (bits_of 0) true 0)
parallel_prefix_adder-even_shares_example =
    parallel_prefix_adder-even_shares (bits_of 20) (bits_of 99) 8 (bits_of 0) (omega arith)

compare_words-order_example : compare_words 8 (bits_of 20) (bits_of 200) ≡ (
  value 8 (bits_of 20) == value 8 (bits_of 200),
  ltb (offset_value 8 (bits_of 200)) (offset_value 8 (bits_of 20)),
)
compare_words-order_example = compare_words-order 8 (bits_of 20) (bits_of 200) (omega arith)
