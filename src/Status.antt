-- ===== src/Status.antt =====
-- `show_status` of btor/butils.cpp: the characters that it writes. The two conversions of the `float`
-- to `int`, of `percentage * 10` and of `100 * percentage`, are arguments.
pub mod Width
use btor.Base.{ℕ, zero, suc, ◌+◌, ◌%◌, Bool, true, false, [], ◌∷◌, ◌++◌}
use btor.Base.{Bytes, codes, replicate, ltb, leb, ◌==◌, if◌then◌else◌}
use btor.Base.Decimal.{decimal_int}
use btor.Base.Int.{ℤ, pos, negsuc, neg_ℕ}

-- `% 10` on an `int`, which keeps the sign.
abbrev pub last_digit : ℤ → ℤ
last_digit (pos n) = pos (n % 10)
last_digit (negsuc n) = neg_ℕ ((n + 1) % 10)

-- `i == tens`, `i < tens` and `ones <= 4`
abbrev pub is_at : ℕ → ℤ → Bool
is_at i (pos t) = i == t
is_at i (negsuc t) = false

abbrev pub is_before : ℕ → ℤ → Bool
is_before i (pos t) = ltb i t
is_before i (negsuc t) = false

abbrev pub is_low : ℤ → Bool
is_low (pos n) = leb n 4
is_low (negsuc n) = true

-- What the round `i` of the loop adds; 254 is the block character.
unfoldable pub cell : ℤ → ℤ → ℕ → Bytes
cell tens ones i =
    if is_at i tens
    then (if is_low ones then decimal_int ones ++ codes "." else 254 ∷ decimal_int ones)
    else if is_before i tens
    then 254 ∷ 254 ∷ []
    else codes ".."

-- The loop from `i` on, for the rounds that are left.
unfoldable pub middle_bit : ℕ → ℤ → ℤ → ℕ → Bytes
middle_bit zero tens ones i = []
middle_bit (suc rounds) tens ones i = cell tens ones i ++ middle_bit rounds tens ones (suc i)

-- The backspaces, and the bar.
unfoldable pub show_status : ℤ → ℤ → Bytes
show_status tens hundreds =
    replicate 22 8 ++ b'[' ∷ (middle_bit 10 tens (last_digit hundreds) 0 ++ b']' ∷ [])
