-- ===== src/Lib.antt =====
-- CryptDough: a library for secure multiparty computation. The parties hold secret shares of
-- vectors; a protocol (include/core/protocols) gives the operations on shares, boolean circuits
-- and operators are built of these, generators (include/core/random) supply masks, triples and
-- permutations, and communicators (include/core/communication) carry the messages.
--
-- Parts and files:
--   Base        names of the library that all modules use, Boolean tests, remainders, bit width.
--   Lanes       the element types of the vectors. Protocols are templates over them, so they are
--               modelled over an interface: each value has numbers in lanes, and the operations
--               are those of the integers modulo one more than `top` in every lane. Word and
--               Vector are the machine words under + and *, and vectors of them
--               (include/core/containers/mapping_access_vector.h); Bitwise is a word under ^ and
--               &, whose lanes are its bits.
--   Comm        ranks, peers and rounds: the code of all ranks runs in lock step, and a receive
--               that nobody serves fails (include/core/communication/communicator.h).
--   Random      ZeroSharing (getNextArithmetic, getNextBinary) over the PRGs of Prg, Triples
--               (DummyOLE, DummyOT, BeaverTripleGenerator), Pool (PooledGenerator),
--               Permutation (gen_perm) and PermutationManager (over an interface of the
--               generator; its child modules hold proofs), from include/core/random.
--   Replicated  include/core/protocols/replicated_3pc.h: Shares, Multiply, Convert, DotProduct
--               (of vectors whose size is a multiple of the chunk).
--   Beaver      include/core/protocols/beaver_2pc.h: Shares, Multiply, and
--               Generated, which takes its triples from the generators of Random.
--   FourParty   include/core/protocols/dalskov_4pc.h: Ranks (who sends, hashes and receives), Jmp
--               (joint messages and the hash check), Shares, Inp (inputs that two ranks know),
--               Multiply (what is made of them); Detection has the runs in which a sender lies.
--               A round runs the code of all four ranks; the PRG that three ranks share is named
--               by the fourth.
--   CustomFour  include/core/protocols/custom_4pc.h: the product of multiply_a before truncation,
--               and_b and opening, with the check of every message; Opening, Terms, Counts,
--               Parts and Laws hold the proofs.
--   Views       the mappings of the views of a vector
--               (include/core/containers/mapping_access_vector.h); Tabulate describes a list by
--               its entries.
--   Operators   include/core/operators, on the values that are shared: Pairwise has the rounds of
--               the pairwise sorting network, Shuffle the application, composition and inversion
--               of permutations (shuffle.h, include/core/containers/permutation.h), RadixSort
--               radix_sort_ccs and PaddedSort radix_sort (radixsort.h, pad_input and
--               remove_padding of sorting.h), TableSort table_sort over an interface for the sort
--               of one column, SortDraws get_perm_counts and the calls of a table sort for random
--               permutations, PrefixNetwork the Brent-Kung network (prefix_network.h) and
--               Aggregation and TreePrefixSum aggregate with its functions and tree_prefix_sum
--               (aggregation.h). A random sharded permutation acts on the value that is shared as
--               one permutation, a parameter. Counting, Places, Passes, Numbers, Padding, Scan,
--               Levels, Functions, Groups and Counts hold proofs.
--   Circuits    include/core/protocols/interface/protocol_circuits.h on one element: Ripple,
--               Prefix, Compare. The circuits use only the protocol's xor, and, not and shifts,
--               so they are modelled on the value that is shared.
--   Ring        include/core/communication/ring.h: a bounded queue of messages; Walk, Laws and Runs
--               hold the proofs, Runs those about sequences of calls.
--   Tests       runs on eight-bit words.
-- Modules named Laws or ...Laws hold the proofs about the module beside them; PrefixWindows,
-- CompareBits, Agreement, Sums and Walk hold what those proofs share.
--
-- How they interact: a multiplication of three ranks draws its masks from ZeroSharing, one of two
-- ranks takes its triples from Triples, and the theorems about the protocols use the laws of
-- those generators. State is passed on: each rank has a count of the values it has drawn from
-- each PRG, and two ranks that share a PRG agree if their counts do. Two neighbours of up to three
-- ranks share a PRG, and three of four ranks do (include/backend/common/rand_setup.h).
--
-- Bounds and fuel: widths of words are arbitrary. `bit_width` halves a number at most as often as
-- the number counts. The rejection loop of gen_perm has no bound in the code; its fuel is enough
-- if every window of that many random words has one whose masked value is zero. The rounds of
-- the prefix circuits and of the logarithmic comparison are the bit width of w - 1, as in the
-- code. A wait of the ring buffer is a call without result in that state. The loops of
-- an alternating view have as much fuel as entries to write, those of the sorting network
-- 2 ^ bit_width (n - 1), which is proved enough. The sizes of alternating views are 64-bit
-- `size_t`s with their wrap-around, and an `int` of the sorting network that overflows is `none`;
-- views that repeat elements are modelled for at most 2 ^ 31 - 1 entries, and an entry of the ring
-- buffer for messages that fit it.
--
-- Not modelled: ciphers and hashes (streams are parameters), the shift of fixed-point values (a
-- parameter), transport, threads, files, profiling; the rest of the custom four-party protocol,
-- SPDZ2k, matrix and convolution kernels, reshare, quicksort, bitonic sort, joins, and streaming.
-- A hash that is checked is a parameter, and telling sequences of messages apart a hypothesis. The
-- reservation that a radix sort makes itself is left out of the calls of a table sort. The updates
-- of the hashes by an opening of four ranks are left out: the check comes before the opening.
pub mod Base
pub mod Lanes
pub mod Comm
pub mod Random
pub mod Replicated
pub mod Circuits
pub mod FourParty
pub mod CustomFour
pub mod Beaver
pub mod Views
pub mod Operators
pub mod Ring
pub mod Tests
