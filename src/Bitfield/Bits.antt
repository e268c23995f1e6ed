-- ===== src/Bitfield/Bits.antt =====
-- Facts on bytes and masks, checked over all bytes and all offsets.
use Prim.Native.Nat.{bit_and, bit_or}
use btor.Base.{ℕ, zero, suc, ◌/◌, ◌%◌, ◌^◌, ◌<◌, ◌≡◌, refl, Bool, true, false, not, ◌||◌, arith}
use btor.Base.{◌==◌, ==_iff, if◌then◌else◌, Bool-cases, inl, inr}

-- A test on the numbers below a bound, and what it shows of each of them.
passes : (ℕ → Bool) → ℕ → Bool
passes test zero = true
passes test (suc bound) = if test bound then passes test bound else false

passes-each :
    (test : ℕ → Bool) (bound : ℕ) → passes test bound ≡ true → (k : ℕ) → k < bound → test k ≡ true
unfolding passes
passes-each test zero table k below = absurd (omega arith)
passes-each test (suc bound) table k below = elim (Bool-cases (test bound)) [
  | inl here ↦ elim (Bool-cases (k == bound)) [
    | inl same ↦ rw ((==_iff k bound).0 same) here
    | inr other ↦ passes-each test bound (rw here at table) k (ground arith)
  ]
  | inr here ↦ absurd (cc (rw here at table))
]

-- Whether bit `o`, counted from the highest, is set in a byte.
abbrev pub bit_at : ℕ → ℕ → Bool
bit_at byte o = not (bit_and byte (0x80 / 2 ^ o) == 0)

abbrev pub set_at : ℕ → ℕ → ℕ
set_at byte o = bit_or byte (0x80 / 2 ^ o) % 2 ^ 8

same_bool : Bool → Bool → Bool
same_bool true b = b
same_bool false b = not b

same_bool_sound : (a b : Bool) → same_bool a b ≡ true → a ≡ b
unfolding same_bool
same_bool_sound true b h = ground arith
same_bool_sound false b h = ground arith

set_table :
    passes
      (λ x.
        passes
          (λ o. passes (λ o'. same_bool (bit_at (set_at x o) o') (o == o' || bit_at x o')) 8)
          8)
      256
    ≡ true
unfolding passes same_bool
set_table = refl

-- A bit of a byte after one bit has been set.
pub bit_at-set_at :
    (x o o' : ℕ) → x < 256 → o < 8 → o' < 8 → bit_at (set_at x o) o' ≡ (o == o' || bit_at x o')
bit_at-set_at x o o' hx ho ho' =
    same_bool_sound _ _
      (passes-each _ 8 (passes-each _ 8 (passes-each _ 256 set_table x hx) o ho) o' ho')
