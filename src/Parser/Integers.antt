-- ===== src/Parser/Integers.antt =====
-- `parseInteger` on digits among other characters, and on an encoded integer.
use btor.Base.{
  ℕ, zero, suc, ◌+◌, ◌-◌, ◌*◌, ◌^◌, ◌≤◌, ◌<◌, ◌≡◌, refl, Bool, true, false, [], ◌∷◌, ◌++◌, ◌∙◌,
  arith, append_assoc, inl, inr,
}
use btor.Base.{Bytes, length, length-append, ◌==◌, if◌then◌else◌, Bool-cases, or-false}
use btor.Base.Decimal.{
  is_digit, decimal, decimal_int, digits_value, AllDigits, decimal-AllDigits, digits_value-decimal,
}
use btor.Base.Int.{ℤ, pos, negsuc, neg_ℕ}
use btor.Base.Outcome.{ok}
use btor.Bencode.{encode_int, FitsInt}
use btor.Cursor.{World, alloc}
use btor.Cursor.Sees.{Sees, Sees-taken, advance, eat, consume-Sees}
use btor.Object.{of_int}
use btor.Parser.Spells.{AllPlain, digits_among, sign, signed}
use btor.Parser.Strings.{append_digit-ok}
use btor.Parser.{integer_digit, integer_loop, parse_integer}

pub digit-ne-e : (c : ℕ) → is_digit c ≡ true → (c == b'e') ≡ false
unfolding is_digit
digit-ne-e c h = ground arith

pub digit-ne-dash : (c : ℕ) → is_digit c ≡ true → (c == b'-') ≡ false
unfolding is_digit
digit-ne-dash c h = ground arith

digits_among-le : (acc : ℕ) (cs : Bytes) → acc ≤ digits_among acc cs
unfolding digits_among
digits_among-le acc [] = omega arith
digits_among-le acc (c ∷ cs) = elim (Bool-cases (is_digit c)) [
  | inl e ↦ rw e (omega (arith, digits_among-le (acc * 10 + (c - b'0')) cs))
  | inr e ↦ rw e (digits_among-le acc cs)
]

integer_digit-fits :
    (n c : ℕ)
    → (if is_digit c then n * 10 + (c - b'0') else n) < 2 ^ 63
    → integer_digit n c ≡ ok (if is_digit c then n * 10 + (c - b'0') else n)
integer_digit-fits n c h = elim (Bool-cases (is_digit c)) [
  | inl e ↦ rw e (append_digit-ok (2 ^ 63) n c (rw e at h))
  | inr e ↦ rw e refl
]

integer_loop-AllPlain :
    (cs rest : Bytes) (f : ℕ) (first negative : Bool) (n : ℕ) (w : World)
    → AllPlain cs
    → digits_among n cs < 2 ^ 63
    → Sees (cs ++ b'e' ∷ rest) w.parser
    → length cs < f
    → integer_loop f first negative n w
      ≡ ok ((negative, digits_among n cs), eat (cs ++ b'e' ∷ []) w)
unfolding digits_among advance integer_loop
integer_loop-AllPlain cs rest zero first negative n w plain small s h = absurd (omega arith)
integer_loop-AllPlain [] rest (suc f) first negative n w plain small s h =
    rw (consume-Sees w s) refl
integer_loop-AllPlain (c ∷ cs) rest (suc f) first negative n w plain small s h =
    let n' = if is_digit c then n * 10 + (c - b'0') else n in
    rw (consume-Sees w s) (
      rw (plain.0, plain.1)
        (rw (integer_digit-fits n c (omega (arith, digits_among-le n' cs))) (
          rw (or-false negative) (
            integer_loop-AllPlain cs rest f false negative n' (eat (c ∷ []) w) plain.2 small
              (Sees-taken s) (omega arith)))))

pub integer_loop-dash :
    (f n : ℕ) {rest : Bytes} (w : World)
    → Sees (b'-' ∷ rest) w.parser
    → integer_loop (suc f) true false n w ≡ integer_loop f false true n (eat (b'-' ∷ []) w)
unfolding integer_loop advance is_digit
integer_loop-dash f n w s = rw (consume-Sees w s)

integer_loop-sign :
    (negative : Bool) (cs rest : Bytes) (f : ℕ) (w : World)
    → AllPlain cs
    → digits_among 0 cs < 2 ^ 63
    → Sees (sign negative ++ (cs ++ b'e' ∷ rest)) w.parser
    → suc (length cs) < f
    → integer_loop f true false 0 w
      ≡ ok ((negative, digits_among 0 cs), eat (sign negative ++ (cs ++ b'e' ∷ [])) w)
unfolding advance
integer_loop-sign false cs rest f w plain small s h =
    integer_loop-AllPlain cs rest f true false 0 w plain small s (omega arith)
integer_loop-sign true cs rest zero w plain small s h = absurd (omega arith)
integer_loop-sign true cs rest (suc f) w plain small s h =
    integer_loop-dash f 0 w s
    ∙ integer_loop-AllPlain cs rest f false true 0 (eat (b'-' ∷ []) w) plain small (Sees-taken s)
        (omega arith)

pub parse_integer-AllPlain :
    (negative : Bool) (cs rest : Bytes) (f : ℕ) (w : World)
    → AllPlain cs
    → digits_among 0 cs < 2 ^ 63
    → Sees (b'i' ∷ (sign negative ++ (cs ++ b'e' ∷ rest))) w.parser
    → suc (length cs) < f
    → parse_integer f w
      ≡ alloc
          (of_int (signed negative (digits_among 0 cs)))
          (eat (b'i' ∷ (sign negative ++ (cs ++ b'e' ∷ []))) w)
unfolding parse_integer advance
parse_integer-AllPlain negative cs rest f w plain small s h = rw (consume-Sees w s) (
    rw (integer_loop-sign negative cs rest f (eat (b'i' ∷ []) w) plain small (Sees-taken s) h) refl)

-- Digits are plain.
pub AllDigits-AllPlain : (cs : Bytes) → AllDigits cs → AllPlain cs
AllDigits-AllPlain [] all = tt
AllDigits-AllPlain (c ∷ cs) all =
    (digit-ne-e c all.0, digit-ne-dash c all.0, AllDigits-AllPlain cs all.1)

pub digits_among-AllDigits :
    (acc : ℕ) (cs : Bytes) → AllDigits cs → digits_among acc cs ≡ digits_value acc cs
unfolding digits_among digits_value
digits_among-AllDigits acc [] all = refl
digits_among-AllDigits acc (c ∷ cs) all =
    rw (all.0) (digits_among-AllDigits (acc * 10 + (c - b'0')) cs all.1)

pub among-decimal : (n : ℕ) → digits_among 0 (decimal n) ≡ n
among-decimal n =
    digits_among-AllDigits 0 (decimal n) (decimal-AllDigits n) ∙ digits_value-decimal n

pub neg_suc : (n : ℕ) → neg_ℕ (suc n) ≡ negsuc n
neg_suc n = ground arith

pub parse_integer-encode :
    (i : ℤ) (rest : Bytes) (f : ℕ) (w : World)
    → FitsInt i
    → Sees (b'i' ∷ (encode_int i ++ rest)) w.parser
    → length (encode_int i) < f
    → parse_integer f w ≡ alloc (of_int i) (eat (b'i' ∷ encode_int i) w)
unfolding encode_int decimal_int
parse_integer-encode (pos n) rest f w fits s h =
    parse_integer-AllPlain false (decimal n) rest f w (AllDigits-AllPlain _ (decimal-AllDigits n))
      (rw (among-decimal n) fits) (rw append_assoc at s)
      (omega (arith, h, length-append (decimal n) (b'e' ∷ [])))
    ∙ rw (among-decimal n) refl
parse_integer-encode (negsuc n) rest f w fits s h =
    parse_integer-AllPlain true (decimal (suc n)) rest f w
      (AllDigits-AllPlain _ (decimal-AllDigits (suc n))) (rw (among-decimal (suc n)) fits)
      (rw append_assoc at s) (omega (arith, h, length-append (decimal (suc n)) (b'e' ∷ [])))
    ∙ rw (among-decimal (suc n), neg_suc) refl
