-- ===== src/Parser/Spelt/Values.antt =====
-- A string and an integer as values, and how the text of a value begins.
use btor.Base.{
  ℕ, zero, suc, ◌+◌, ◌^◌, ◌<◌, ◌≡◌, refl, ap, Bool, true, false, [], ◌∷◌, ◌++◌, ◌∙◌, arith,
  append_assoc,
}
use btor.Base.{Bytes, length, ◌==◌}
use btor.Base.Int.{pos}
use btor.Base.Outcome.{Outcome, ok}
use btor.Bencode.{Value, int, str, IsReadable, FitsInt, total_length}
use btor.Cursor.Sees.{Sees, Sees-advance, advance, eat}
use btor.Cursor.{World}
use btor.Memory.Build.{build, created}
use btor.Memory.{Memory, next}
use btor.Object.{of_int, of_string}
use btor.Parser.Integers.{digit-ne-e, neg_suc, parse_integer-AllPlain}
use btor.Parser.Lengths.{Collected, Collected-advance}
use btor.Parser.Reads.{Ready}
use btor.Parser.Spells.{
  SpellsString, counted, AllPlain, digits_among, sign, signed, StartsDigit, Spells, an_integer,
  a_string, a_list, a_dictionary,
}
use btor.Parser.Spelt.{extract_string-SpellsString}
use btor.Parser.Steps.{alloc-created, parse_arbitrary-Sees, dispatch-digit}
use btor.Parser.{parse_arbitrary, parse_string, dispatch}

-- What a run returns, and the state that it leaves.
pub record Reads {A : Type 0} (r : Outcome (A × World)) (a : A) (m : Memory) (rest : Bytes) (n : ℕ)
    : Type 0 where
  pub after : World
  pub returns : r ≡ ok (a, after)
  pub same : after.memory ≡ m
  pub sees : Sees rest after.parser
  pub collected : Collected n after.parser

FitsInt-signed : (negative : Bool) (n : ℕ) → FitsInt (signed negative n) → n < 2 ^ 63
FitsInt-signed false n h = h
FitsInt-signed true zero h = omega arith
FitsInt-signed true (suc n) h = rw neg_suc at h

pub spelt_integer :
    (negative : Bool) (ds rest : Bytes) (f n : ℕ) (w : World)
    → AllPlain ds
    → IsReadable (int (signed negative (digits_among 0 ds)))
    → Ready
        (b'i' ∷ (sign negative ++ (ds ++ b'e' ∷ [])))
        rest
        (total_length (int (signed negative (digits_among 0 ds))))
        n
        w
    → suc (length ds) < f
    → Reads
        (parse_arbitrary (suc f) w)
        (next w.memory)
        (build (int (signed negative (digits_among 0 ds))) w.memory)
        rest
        (n + total_length (int (signed negative (digits_among 0 ds))))
unfolding build IsReadable total_length
spelt_integer negative ds rest f n w plain fits r h =
    let text = b'i' ∷ (sign negative ++ (ds ++ b'e' ∷ [])) in
    let s : Sees (b'i' ∷ (sign negative ++ (ds ++ b'e' ∷ rest))) w.parser =
      rw (append_assoc, append_assoc) at r.sees in
    record {
      after = record {
        parser = advance text w.parser;
        memory = created (of_int (signed negative (digits_among 0 ds))) w.memory;
      };
      returns =
          parse_arbitrary-Sees f b'i' w s
          ∙ unfold dispatch in
            parse_integer-AllPlain negative ds rest f w plain (FitsInt-signed negative _ fits) s h
            ∙ alloc-created (of_int (signed negative (digits_among 0 ds))) (eat text w);
      same = refl;
      sees = Sees-advance text r.sees;
      collected = Collected-advance text w.parser r.collected ∙ ap pos (omega arith);
    }

pub spelt_string :
    (b c rest : Bytes) (f n : ℕ) (w : World)
    → StartsDigit c
    → SpellsString b c
    → IsReadable (str b)
    → Ready c rest (total_length (str b)) n w
    → length c < f
    → Reads
        (parse_arbitrary (suc f) w)
        (next w.memory)
        (build (str b) w.memory)
        rest
        (n + total_length (str b))
unfolding build IsReadable total_length
spelt_string b [] rest f n w starts spelt fits r h = absurd starts
spelt_string b (c ∷ cs) rest f n w starts spelt fits r h = record {
  after = record { parser = advance (c ∷ cs) w.parser; memory = created (of_string b) w.memory };
  returns =
      parse_arbitrary-Sees f c w r.sees
      ∙ ap (λ g. g w) (dispatch-digit c _ _ _ _ starts)
      ∙ unfold parse_string in
        rw (extract_string-SpellsString b (c ∷ cs) rest f w spelt fits r.sees h)
          (alloc-created (of_string b) (eat (c ∷ cs) w));
  same = refl;
  sees = Sees-advance (c ∷ cs) r.sees;
  collected = Collected-advance (c ∷ cs) w.parser r.collected ∙ ap pos (omega arith);
}

-- A text that begins with no `e`.
abbrev pub Begins : Bytes → Type 0
Begins text = (c : ℕ) × (cs : Bytes) × (text ≡ c ∷ cs) × ((c == b'e') ≡ false)

pub string-Begins : {b c : Bytes} → SpellsString b c → Begins c
string-Begins (counted [] digits value) = (b':', _, refl, refl)
string-Begins (counted (d ∷ ds) digits value) = (d, _, refl, digit-ne-e d digits.0)

pub value-Begins : {v : Value} {c : Bytes} → Spells v c → Begins c
value-Begins (an_integer negative ds plain) = (b'i', _, refl, refl)
value-Begins (a_string starts spelt) = string-Begins spelt
value-Begins (a_list cons spelt) = (b'l', _, refl, refl)
value-Begins (a_dictionary has spelt) = (b'd', _, refl, refl)

pub length-Begins : {text : Bytes} → Begins text → 0 < length text
length-Begins (c, cs, e, ne) = rw e (omega arith)
