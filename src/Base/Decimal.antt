-- ===== src/Base/Decimal.antt =====
-- Decimal text, as `std::to_string` and `operator<<` write integers, and what its digits stand for.
use btor.Base.Tests.{ltb, leb, ltb→lt, Bool-cases}
use btor.Base.Strings.{Bytes}
use btor.Base.Int.{ℤ, pos, negsuc}
use Prim.Native.Nat.{ℕ, zero, suc, ◌+◌, ◌-◌, ◌*◌, ◌/◌, ◌%◌, ◌≤◌, ◌<◌}
use mathlib.Core.Path.{◌≡◌, refl}
use mathlib.Core.Bool.{Bool, true, false, ◌&&◌}
use mathlib.Core.List.{[], ◌∷◌, ◌++◌}
use native.Mathlib.Omega.{arith}
use mathlib.Core.Logic.{inl, inr}

-- `'0' <= c && c <= '9'`
unfoldable pub is_digit : ℕ → Bool
is_digit c = leb b'0' c && leb c b'9'

-- The digits of a number, the lowest last; more fuel than the number always suffices.
unfoldable pub decimal_fuel : ℕ → ℕ → Bytes
decimal_fuel zero n = []
decimal_fuel (suc f) n = elim (ltb n 10) [
  | true ↦ (b'0' + n) ∷ []
  | false ↦ decimal_fuel f (n / 10) ++ (b'0' + n % 10) ∷ []
]

unfoldable pub decimal : ℕ → Bytes
unfolding decimal_fuel
decimal n = decimal_fuel (suc n) n

unfoldable pub decimal_int : ℤ → Bytes
decimal_int (pos n) = decimal n
decimal_int (negsuc n) = b'-' ∷ decimal (suc n)

-- The number read on from `acc`.
unfoldable pub digits_value : ℕ → Bytes → ℕ
digits_value acc [] = acc
digits_value acc (c ∷ cs) = digits_value (acc * 10 + (c - b'0')) cs

abbrev pub AllDigits : Bytes → Type 0
AllDigits [] = Unit {0}
AllDigits (c ∷ cs) = (is_digit c ≡ true) × AllDigits cs

pub AllDigits-append : (xs ys : Bytes) → AllDigits xs → AllDigits ys → AllDigits (xs ++ ys)
AllDigits-append [] ys h k = k
AllDigits-append (x ∷ xs) ys h k = (h.0, AllDigits-append xs ys h.1 k)

pub digits_value-append :
    (acc : ℕ) (xs ys : Bytes) → digits_value acc (xs ++ ys) ≡ digits_value (digits_value acc xs) ys
unfolding digits_value
digits_value-append acc [] ys = refl
digits_value-append acc (x ∷ xs) ys = digits_value-append (acc * 10 + (x - b'0')) xs ys

pub digits_value-le : (acc : ℕ) (xs : Bytes) → acc ≤ digits_value acc xs
unfolding digits_value
digits_value-le acc [] = omega arith
digits_value-le acc (x ∷ xs) = omega (arith, digits_value-le (acc * 10 + (x - b'0')) xs)

is_digit-lt : (n : ℕ) → n < 10 → is_digit (b'0' + n) ≡ true
unfolding is_digit
is_digit-lt n h = ground arith

decimal_fuel-AllDigits : (f n : ℕ) → AllDigits (decimal_fuel f n)
unfolding decimal_fuel
decimal_fuel-AllDigits zero n = tt
decimal_fuel-AllDigits (suc f) n = elim (Bool-cases (ltb n 10)) [
  | inl e ↦ rw (e, decimal_fuel) (is_digit-lt n (ltb→lt n 10 e), tt)
  | inr e ↦
      rw (e, decimal_fuel)
        (AllDigits-append (decimal_fuel f (n / 10)) _ (decimal_fuel-AllDigits f (n / 10))
          (is_digit-lt (n % 10) (omega arith), tt))
]

decimal_fuel_value : (f n : ℕ) → n < f → digits_value 0 (decimal_fuel f n) ≡ n
unfolding decimal_fuel digits_value
decimal_fuel_value zero n h = absurd (omega arith)
decimal_fuel_value (suc f) n h = ground (
  arith,
  decimal_fuel_value f (n / 10),
  digits_value-append 0 (decimal_fuel f (n / 10)) ((b'0' + n % 10) ∷ []),
)

pub decimal-AllDigits : (n : ℕ) → AllDigits (decimal n)
unfolding decimal
decimal-AllDigits n = decimal_fuel-AllDigits (suc n) n

pub digits_value-decimal : (n : ℕ) → digits_value 0 (decimal n) ≡ n
unfolding decimal
digits_value-decimal n = decimal_fuel_value (suc n) n (omega arith)

test : decimal 70052 ≡ 55 ∷ 48 ∷ 48 ∷ 53 ∷ 50 ∷ []
unfolding decimal
test = refl

decimal_fuel-cons : (f n : ℕ) → (c : ℕ) × (cs : Bytes) × (decimal_fuel (suc f) n ≡ c ∷ cs)
unfolding decimal_fuel
decimal_fuel-cons zero n = elim (Bool-cases (ltb n 10)) [
  | inl e ↦ (b'0' + n, [], rw (e, decimal_fuel))
  | inr e ↦ (b'0' + n % 10, [], rw (e, decimal_fuel))
]
decimal_fuel-cons (suc f) n = elim (Bool-cases (ltb n 10)) [
  | inl e ↦ (b'0' + n, [], rw (e, decimal_fuel))
  | inr e ↦
      let (c, cs, p) = decimal_fuel-cons f (n / 10) in
      (c, cs ++ (b'0' + n % 10) ∷ [], rw (e, decimal_fuel) (rw p))
]

-- A number has at least one digit.
pub decimal-cons : (n : ℕ) → (c : ℕ) × (cs : Bytes) × (decimal n ≡ c ∷ cs)
unfolding decimal
decimal-cons n = decimal_fuel-cons n n
