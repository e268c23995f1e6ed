-- ===== src/Parser/Spelt.antt =====
-- The parser on the texts of the grammar of Parser/Spells.antt. Here is `extractString`, by which a key
-- is read too.
pub mod Values
pub mod Lists
pub mod Dictionaries
pub mod Texts
pub mod Prints
use btor.Base.{
  ℕ, zero, suc, ◌+◌, ◌-◌, ◌*◌, ◌^◌, ◌≤◌, ◌<◌, ◌≡◌, refl, sym, ap, Bool, true, false, [], ◌∷◌, ◌++◌,
  ◌∙◌, arith, append_assoc, append-nil, inl, inr,
}
use btor.Base.{Bytes, length, length-append, if◌then◌else◌, ◌==◌, Bool-cases, or-false}
use btor.Base.Decimal.{is_digit, digits_value, AllDigits}
use btor.Base.Outcome.{ok}
use btor.Bencode.{FitsString}
use btor.Cursor.Sees.{Sees, Sees-taken, Sees-advance, advance, eat, consume-Sees}
use btor.Cursor.{World}
use btor.Memory.Build.{created}
use btor.Memory.{next}
use btor.Object.{of_int}
use btor.Parser.Integers.{integer_loop-dash}
use btor.Parser.Spells.{SpellsString, counted, AllPlain, digits_among, sign, signed}
use btor.Parser.Steps.{alloc-created}
use btor.Parser.Strings.{append_digit-ok, length_loop-colon, extract_string-digits}
use btor.Parser.{integer_digit, integer_loop, parse_integer, extract_string, length_loop, read_loop}

no_digits :
    (b rest : Bytes) (f : ℕ) (w : World)
    → 0 ≡ length b
    → Sees (b':' ∷ (b ++ rest)) w.parser
    → extract_string (suc f) w ≡ ok (b, eat (b':' ∷ b) w)
unfolding extract_string advance
no_digits [] rest f w none_left s =
    rw (consume-Sees w s)
      (rw (length_loop-colon f 0 (eat (b':' ∷ []) w)) (unfold read_loop in refl))
no_digits (c ∷ cs) rest f w none_left s = absurd (omega arith)

pub extract_string-SpellsString :
    (b c rest : Bytes) (f : ℕ) (w : World)
    → SpellsString b c
    → FitsString b
    → Sees (c ++ rest) w.parser
    → length c < f
    → extract_string f w ≡ ok (b, eat c w)
extract_string-SpellsString b c rest zero w spelt fits s h = absurd (omega arith)
extract_string-SpellsString b c rest (suc f) w (counted [] digits value) fits s h =
    no_digits b rest f w (unfold digits_value in value) s
extract_string-SpellsString b c rest (suc f) w (counted (d ∷ ds) digits value) fits s h =
    extract_string-digits d ds b rest (suc f) w digits value fits (rw append_assoc at s)
      (omega (arith, h, length-append ds (b':' ∷ b)))
