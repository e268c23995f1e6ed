-- ===== src/Parser/Spelt/Prints.antt =====
-- The prints of Bencode.antt as texts of the grammar of Parser/Spells.antt.
use btor.Base.{suc, true, false, ◌∷◌}
use btor.Base.{Bytes, length}
use btor.Base.Decimal.{decimal, decimal_int, decimal-AllDigits, decimal-cons, digits_value-decimal}
use btor.Base.Int.{pos, negsuc}
use btor.Bencode.{
  Value, Items, Fields, int, str, list, dict, no_items, item, no_fields, field, IsReadable,
  AllReadable, FieldsReadable, encode, encode_items, encode_fields, encode_string, encode_int,
}
use btor.Parser.Integers.{AllDigits-AllPlain, among-decimal, neg_suc}
use btor.Parser.Spells.{
  SpellsString, counted, StartsDigit, Spells, an_integer, a_string, a_list, a_dictionary,
  SpellsItems, no_more, an_item, SpellsFields, no_others, a_field,
}

encode_int-Spells : (i : _) → Spells (int i) (b'i' ∷ encode_int i)
unfolding encode_int decimal_int
encode_int-Spells (pos n) =
    rw among-decimal at (an_integer false (decimal n) (AllDigits-AllPlain _ (decimal-AllDigits n)))
encode_int-Spells (negsuc n) =
    rw (among-decimal, neg_suc) at
      (an_integer true (decimal (suc n)) (AllDigits-AllPlain _ (decimal-AllDigits (suc n))))

encode_string-SpellsString : (b : Bytes) → SpellsString b (encode_string b)
unfolding encode_string
encode_string-SpellsString b =
    counted (decimal (length b)) (decimal-AllDigits (length b)) (digits_value-decimal (length b))

encode_string-StartsDigit : (b : Bytes) → StartsDigit (encode_string b)
unfolding encode_string
encode_string-StartsDigit b =
    let (c, cs, e) = decimal-cons (length b) in
    let digits = rw e at (decimal-AllDigits (length b)) in rw e digits.0

mutual
  unfolding encode IsReadable

  value-Spells : (v : Value) → IsReadable v → Spells v (encode v)
  value-Spells (int i) fits = encode_int-Spells i
  value-Spells (str b) fits = a_string (encode_string-StartsDigit b) (encode_string-SpellsString b)
  value-Spells (list xs) fits = a_list fits.0 (items-Spells xs fits.1)
  value-Spells (dict fs) fits = a_dictionary fits.0 (fields-Spells fs fits.1)

  items-Spells : (xs : Items) → AllReadable xs → SpellsItems xs (encode_items xs)
  items-Spells no_items all = no_more
  items-Spells (item v xs) all = an_item (value-Spells v all.0) (items-Spells xs all.1)

  fields-Spells : (fs : Fields) → FieldsReadable fs → SpellsFields fs (encode_fields fs)
  fields-Spells no_fields all = no_others
  fields-Spells (field k v fs) all =
      a_field (encode_string-SpellsString k) (value-Spells v all.2) (fields-Spells fs all.3)

-- The print of a readable value spells it.
pub encode-Spells : (v : Value) → IsReadable v → Spells v (encode v)
encode-Spells = value-Spells
