-- ===== src/Parser/Strings.antt =====
-- `extractString` reads an encoded string back.
use btor.Base.{
  ℕ, zero, suc, ◌+◌, ◌-◌, ◌*◌, ◌^◌, ◌<◌, ◌≡◌, refl, true, false, [], ◌∷◌, ◌++◌, arith, append_assoc,
  append-nil,
}
use btor.Base.{Bytes, length, lt→ltb, ◌∙◌, ◌==◌, length-append}
use btor.Base.Decimal.{
  is_digit, digits_value, digits_value-le, AllDigits, decimal-AllDigits, digits_value-decimal,
  decimal-cons,
}
use btor.Base.Outcome.{ok}
use btor.Bencode.{encode_string, FitsString}
use btor.Cursor.{World}
use btor.Cursor.Sees.{Sees, Sees-taken, Sees-advance, advance, advance-append, eat, consume-Sees}
use btor.Parser.{append_digit, length_loop, read_loop, extract_string}

-- A digit is no colon, and it is appended where the result stays below the limit.
pub append_digit-ok :
    (limit n c : ℕ)
    → n * 10 + (c - b'0') < limit
    → append_digit limit n c ≡ ok (n * 10 + (c - b'0'))
append_digit-ok limit n c h = rw (lt→ltb _ _ h)

pub digit-ne-colon : (c : ℕ) → is_digit c ≡ true → (c == b':') ≡ false
unfolding is_digit
digit-ne-colon c h = ground arith

pub length_loop-colon : (f n : ℕ) (w : World) → length_loop (suc f) b':' n w ≡ ok (n, w)
unfolding length_loop
length_loop-colon f n w = refl

length_loop-step :
    (f n c d : ℕ) {rest : Bytes} (w : World)
    → is_digit c ≡ true
    → n * 10 + (c - b'0') < 2 ^ 31
    → Sees (d ∷ rest) w.parser
    → length_loop (suc f) c n w ≡ length_loop f d (n * 10 + (c - b'0')) (eat (d ∷ []) w)
unfolding length_loop advance
length_loop-step f n c d w digit fits s =
    rw (digit-ne-colon c digit, digit)
      (rw (append_digit-ok (2 ^ 31) n c fits) (rw (consume-Sees w s)))

-- The first character has been consumed already; `w` sees the others.
pub length_loop-digits :
    (c : ℕ) (cs rest : Bytes) (f n : ℕ) (w : World)
    → AllDigits (c ∷ cs)
    → digits_value n (c ∷ cs) < 2 ^ 31
    → Sees (cs ++ b':' ∷ rest) w.parser
    → suc (length cs) < f
    → length_loop f c n w ≡ ok (digits_value n (c ∷ cs), eat (cs ++ b':' ∷ []) w)
unfolding digits_value advance
length_loop-digits c cs rest zero n w all small s h = absurd (omega arith)
length_loop-digits c cs rest (suc zero) n w all small s h = absurd (omega arith)
length_loop-digits c [] rest (suc (suc f)) n w all small s h =
    length_loop-step (suc f) n c b':' w all.0 small s ∙ length_loop-colon f _ _
length_loop-digits c (d ∷ ds) rest (suc (suc f)) n w all small s h =
    length_loop-step (suc f) n c d w all.0
      (omega (arith, digits_value-le (n * 10 + (c - b'0')) (d ∷ ds))) s
    ∙ length_loop-digits d ds rest (suc f) (n * 10 + (c - b'0')) (eat (d ∷ []) w) all.1 small
        (Sees-taken s) (omega arith)

pub read_loop-Sees :
    (b acc rest : Bytes) (w : World)
    → Sees (b ++ rest) w.parser
    → read_loop (length b) acc w ≡ ok (acc ++ b, eat b w)
unfolding read_loop advance
read_loop-Sees [] acc rest w s = rw append-nil
read_loop-Sees (c ∷ cs) acc rest w s =
    rw (consume-Sees w s)
      (read_loop-Sees cs (acc ++ c ∷ []) rest _ (Sees-taken s) ∙ rw append_assoc)

pub extract_string-digits :
    (c : ℕ) (cs b rest : Bytes) (f : ℕ) (w : World)
    → AllDigits (c ∷ cs)
    → digits_value 0 (c ∷ cs) ≡ length b
    → FitsString b
    → Sees (c ∷ (cs ++ b':' ∷ (b ++ rest))) w.parser
    → suc (length cs) < f
    → extract_string f w ≡ ok (b, eat (c ∷ (cs ++ b':' ∷ b)) w)
unfolding extract_string advance
extract_string-digits c cs b rest f w all value fits s h =
    let w₁ = eat (c ∷ []) w in
    let s₁ : Sees (cs ++ b':' ∷ (b ++ rest)) w₁.parser = Sees-taken s in
    let s₂ : Sees (b ++ rest) (advance (cs ++ b':' ∷ []) w₁.parser) =
      Sees-advance (cs ++ b':' ∷ []) (rw append_assoc s₁) in
    let digits = length_loop-digits c cs (b ++ rest) f 0 w₁ all (omega arith) s₁ h in
    rw (consume-Sees w s) (
      rw digits (
        rw value (
          rw (read_loop-Sees b [] rest (eat (cs ++ b':' ∷ []) w₁) s₂)
            (rw (← advance-append (cs ++ b':' ∷ []) b w₁.parser, append_assoc)))))

pub extract_string-encode :
    (b rest : Bytes) (f : ℕ) (w : World)
    → FitsString b
    → Sees (encode_string b ++ rest) w.parser
    → length (encode_string b) < f
    → extract_string f w ≡ ok (b, eat (encode_string b) w)
unfolding encode_string
extract_string-encode b rest f w fits s h =
    let (c, cs, e) = decimal-cons (length b) in
    let s₁ = rw (e, append_assoc) at s in
    rw e (
      extract_string-digits c cs b rest f w (rw e at (decimal-AllDigits (length b)))
        (rw e at (digits_value-decimal (length b))) fits s₁
        (omega (arith, rw e at h, length-append cs (b':' ∷ b))))
