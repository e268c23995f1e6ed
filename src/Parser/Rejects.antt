-- ===== src/Parser/Rejects.antt =====
-- Where the parser and the comments at the top of btor/bencode.cpp part.
use btor.Base.{
  ℕ, suc, ◌+◌, ◌*◌, ◌<◌, ◌^◌, ◌≡◌, refl, Bool, if◌then◌else◌, true, false, [], ◌∷◌, ◌++◌, ◌∙◌,
  arith,
}
use btor.Base.{Bytes, length}
use btor.Base.Decimal.{is_digit, AllDigits, digits_value}
use btor.Base.Int.{pos, neg_ℕ}
use btor.Base.Outcome.{ok, undefined}
use btor.Bencode.{list, dict, no_items, no_fields, encode}
use btor.Cursor.Sees.{Sees, start, Sees-taken, advance, consume-Sees}
use btor.Cursor.{World, taken}
use btor.Memory.Build.{created}
use btor.Memory.{next}
use btor.Object.{b_list, b_dict, of_kind, of_int}
use btor.Parser.Integers.{parse_integer-AllPlain, AllDigits-AllPlain, digits_among-AllDigits}
use btor.Parser.Spells.{sign}
use btor.Parser.Results.{throw_parser_error-undefined}
use btor.Parser.Steps.{parse_arbitrary-Sees, alloc-created}
use btor.Parser.{
  dispatch, length_loop, extract_string, parse_integer, parse_arbitrary, parse_list, list_loop,
  parse_dictionary, dictionary_loop, parse_bencoded_string,
}

no_value :
    (f : ℕ) {rest : Bytes} (w : World)
    → Sees (b'e' ∷ rest) w.parser
    → parse_arbitrary (suc f) w ≡ undefined
unfolding dispatch is_digit
no_value f w s = parse_arbitrary-Sees f b'e' w s ∙ throw_parser_error-undefined b'e' w (omega arith)

no_items_loop :
    (f : ℕ) {rest : Bytes} (p : _) (w : World)
    → Sees (b'e' ∷ rest) w.parser
    → list_loop (suc (suc f)) p w ≡ undefined
unfolding list_loop
no_items_loop f p w s = rw (no_value f w s)

no_key :
    (f : ℕ) {rest : Bytes} (w : World)
    → Sees (b'e' ∷ rest) w.parser
    → extract_string (suc f) w ≡ undefined
unfolding extract_string length_loop is_digit
no_key f w s =
    rw (consume-Sees w s) (rw (throw_parser_error-undefined {A = ℕ} b'e' _ (omega arith)))

no_fields_loop :
    (f : ℕ) {rest : Bytes} (p : _) (w : World)
    → Sees (b'e' ∷ rest) w.parser
    → dictionary_loop (suc (suc f)) p w ≡ undefined
unfolding dictionary_loop
no_fields_loop f p w s = rw (no_key f w s)

parse_no_items :
    (f : ℕ) (rest : Bytes) (w : World)
    → Sees (b'l' ∷ b'e' ∷ rest) w.parser
    → parse_arbitrary (suc (suc (suc (suc f)))) w ≡ undefined
unfolding dispatch parse_list
parse_no_items f rest w s =
    let w₁ = record w { parser = taken b'l' w.parser } in
    let w₂ = record w₁ { memory = created (of_kind b_list) w.memory } in
    parse_arbitrary-Sees _ b'l' w s
    ∙ rw (consume-Sees w s) (
        rw (alloc-created (of_kind b_list) w₁)
          (rw (no_items_loop f (next w.memory) w₂ (Sees-taken s))))

parse_no_fields :
    (f : ℕ) (rest : Bytes) (w : World)
    → Sees (b'd' ∷ b'e' ∷ rest) w.parser
    → parse_arbitrary (suc (suc (suc (suc f)))) w ≡ undefined
unfolding dispatch parse_dictionary
parse_no_fields f rest w s =
    let w₁ = record w { parser = taken b'd' w.parser } in
    let w₂ = record w₁ { memory = created (of_kind b_dict) w.memory } in
    parse_arbitrary-Sees _ b'd' w s
    ∙ rw (consume-Sees w s) (
        rw (alloc-created (of_kind b_dict) w₁)
          (rw (no_fields_loop f (next w.memory) w₂ (Sees-taken s))))

-- The empty list `le` and the empty dictionary `de`, with any text behind them, are not read: the
-- loops parse an element before they look for the closing letter, so that the letter is taken for
-- the start of a value or of a key, and the parser fails on it.
pub parse_bencoded_string-empty :
    (rest : Bytes) (w : World)
    → length (b'l' ∷ b'e' ∷ rest) < 2 ^ 32
    → (parse_bencoded_string (encode (list no_items) ++ rest) w ≡ undefined)
      × (parse_bencoded_string (encode (dict no_fields) ++ rest) w ≡ undefined)
unfolding parse_bencoded_string encode
parse_bencoded_string-empty rest w small =
    let fuel : 3 * length (b'l' ∷ b'e' ∷ rest) + 4
        ≡ suc (suc (suc (suc (3 * length (b'l' ∷ b'e' ∷ rest))))) =
      omega arith in
    (
      rw fuel (
          parse_no_items (3 * length (b'l' ∷ b'e' ∷ rest)) rest (start (b'l' ∷ b'e' ∷ rest) w)
            (record { ahead = refl; small = small })),
      rw fuel (
          parse_no_fields (3 * length (b'l' ∷ b'e' ∷ rest)) rest (start (b'd' ∷ b'e' ∷ rest) w)
            (record { ahead = refl; small = small })),
    )

-- digits with or without a sign
abbrev pub signed : Bool → Bytes → Bytes
signed negative cs = if negative then b'-' ∷ cs else cs

signed-sign :
    (negative : Bool) (cs more : Bytes) → signed negative cs ++ more ≡ sign negative ++ (cs ++ more)
signed-sign true cs more = refl
signed-sign false cs more = refl

-- With more fuel than characters, `parseInteger` takes every sequence of digits between `i` and `e`,
-- or between `i-` and `e`, whose number fits: leading zeros, a negative zero, and no digit at all are not refused.
pub parse_integer-digits :
    (negative : Bool) (cs rest : Bytes) (f : ℕ) (w : World)
    → AllDigits cs
    → digits_value 0 cs < 2 ^ 63
    → suc (length cs) < f
    → Sees (b'i' ∷ (signed negative cs ++ b'e' ∷ rest)) w.parser
    → parse_integer f w
      ≡ ok (
        next w.memory,
        record w {
          parser = advance (b'i' ∷ (signed negative cs ++ b'e' ∷ [])) w.parser;
          memory =
              created
                (of_int (if negative then neg_ℕ (digits_value 0 cs) else pos (digits_value 0 cs)))
                w.memory;
        },
      )
parse_integer-digits negative cs rest f w all fits h s =
    let among = digits_among-AllDigits 0 cs all in
    let text : (signed negative cs ++ b'e' ∷ rest) ≡ sign negative ++ (cs ++ b'e' ∷ rest) =
      signed-sign negative cs (b'e' ∷ rest) in
    parse_integer-AllPlain negative cs rest f w (AllDigits-AllPlain cs all) (rw among fits)
      (rw text at s) h
    ∙ rw (among, signed-sign negative cs (b'e' ∷ [])) (alloc-created _ _)
