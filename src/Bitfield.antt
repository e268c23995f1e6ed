-- ===== src/Bitfield.antt =====
-- The bitfield functions of btor/butils.cpp over a `std::vector<uint8_t>`, a list of numbers below
-- 256. The bit number is an `int`: an argument is first converted to one. `/` and `%` round to
-- zero, so that a negative bit number makes a negative byte index, which as a `size_t` lies outside
-- the vector, or a negative shift; both are undefined.
pub mod Bits
pub mod Laws
use Prim.Native.Nat.{bit_and, bit_or}
use btor.Base.{
  ℕ, suc, ◌*◌, ◌-◌, ◌/◌, ◌%◌, ◌^◌, Bool, true, false, not, Option, none, some, List, [], ◌∷◌,
}
use btor.Base.{Bytes, get_elem?, set, ltb, ◌==◌, if◌then◌else◌}
use btor.Base.Int.{ℤ, pos, negsuc}
use btor.Base.Outcome.{Outcome, ok, undefined}

-- A word of 32 bits, read as an `int`.
of_word : ℕ → ℤ
of_word word = if ltb word (2 ^ 31) then pos word else negsuc (2 ^ 32 - 1 - word)

-- An integer as it is converted to `int`.
unfoldable pub as_int : ℤ → ℤ
unfolding of_word
as_int (pos n) = of_word (n % 2 ^ 32)
as_int (negsuc n) = of_word (2 ^ 32 - 1 - n % 2 ^ 32)

-- `0x80 >> bit_offset`
abbrev pub mask : ℕ → ℕ
mask bit_offset = 0x80 / 2 ^ bit_offset

abbrev pub target_byte : ℕ → ℕ
target_byte bit = bit / 8

abbrev pub bit_offset : ℕ → ℕ
bit_offset bit = bit % 8

set_byte : Option ℕ → Bytes → ℕ → Outcome Bytes
set_byte none bitfield bit_to_set = undefined
set_byte (some byte) bitfield bit_to_set =
    ok (set bitfield (target_byte bit_to_set) (bit_or byte (mask (bit_offset bit_to_set)) % 2 ^ 8))

set_bit : Bytes → ℤ → Outcome Bytes
set_bit bitfield (negsuc n) = undefined
set_bit bitfield (pos bit_to_set) =
    set_byte (get_elem? bitfield (target_byte bit_to_set)) bitfield bit_to_set

unfoldable pub set_bit_in_bitfield : Bytes → ℤ → Outcome Bytes
unfolding set_bit set_byte as_int
set_bit_in_bitfield bitfield bit_to_set = set_bit bitfield (as_int bit_to_set)

test_byte : Option ℕ → ℕ → Outcome Bool
test_byte none bit_to_check = undefined
test_byte (some byte) bit_to_check = ok (not (bit_and byte (mask (bit_offset bit_to_check)) == 0))

test_bit : Bytes → ℤ → Outcome Bool
test_bit bitfield (negsuc n) = undefined
test_bit bitfield (pos bit_to_check) =
    test_byte (get_elem? bitfield (target_byte bit_to_check)) bit_to_check

unfoldable pub is_bit_in_bitfield_set : Bytes → ℤ → Outcome Bool
unfolding test_bit test_byte as_int
is_bit_in_bitfield_set bitfield bit_to_check = test_bit bitfield (as_int bit_to_check)
