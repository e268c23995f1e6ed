-- ===== src/Parser/Spells.antt =====
-- The texts that stand for a value to the parser, as an independent description: wider than the format
-- of Bencode.antt, which gives one text for each value.
use btor.Base.{ℕ, ◌+◌, ◌-◌, ◌*◌, ◌≡◌, Bool, true, false, [], ◌∷◌, ◌++◌}
use btor.Base.{Bytes, length, ◌==◌, if◌then◌else◌}
use btor.Base.Decimal.{is_digit, digits_value, AllDigits}
use btor.Base.Int.{ℤ, pos, neg_ℕ}
use btor.Bencode.{
  Value, Items, Fields, int, str, list, dict, no_items, item, no_fields, field, IsCons, HasField,
  FitsInt, FitsString,
}

-- A length in digits, which may be none at all, a colon, and as many characters.
pub data SpellsString (b : Bytes) : Bytes → Type 0 where
  counted :
      (ds : Bytes) → AllDigits ds → digits_value 0 ds ≡ length b → SpellsString b (ds ++ b':' ∷ b)

-- Characters of an integer: neither its end nor a second sign; those that are no digits do not count.
abbrev pub AllPlain : Bytes → Type 0
AllPlain [] = Unit {0}
AllPlain (c ∷ cs) = ((c == b'e') ≡ false) × ((c == b'-') ≡ false) × AllPlain cs

unfoldable pub digits_among : ℕ → Bytes → ℕ
digits_among acc [] = acc
digits_among acc (c ∷ cs) = digits_among (if is_digit c then acc * 10 + (c - b'0') else acc) cs

abbrev pub sign : Bool → Bytes
sign negative = if negative then b'-' ∷ [] else []

abbrev pub signed : Bool → ℕ → ℤ
signed negative n = if negative then neg_ℕ n else pos n

abbrev pub StartsDigit : Bytes → Type 0
StartsDigit [] = ⊥
StartsDigit (c ∷ cs) = is_digit c ≡ true

mutual
  -- A list and a dictionary hold something.
  pub data Spells : Value → Bytes → Type 0 where
    an_integer :
        (negative : Bool) (ds : Bytes)
        → AllPlain ds
        → Spells
            (int (signed negative (digits_among 0 ds)))
            (b'i' ∷ (sign negative ++ (ds ++ b'e' ∷ [])))
    a_string : {b c : Bytes} → StartsDigit c → SpellsString b c → Spells (str b) c
    a_list :
        {xs : Items} {c : Bytes}
        → IsCons xs
        → SpellsItems xs c
        → Spells (list xs) (b'l' ∷ (c ++ b'e' ∷ []))
    a_dictionary :
        {fs : Fields} {c : Bytes}
        → HasField fs
        → SpellsFields fs c
        → Spells (dict fs) (b'd' ∷ (c ++ b'e' ∷ []))

  pub data SpellsItems : Items → Bytes → Type 0 where
    no_more : SpellsItems no_items []
    an_item :
        {v : Value} {xs : Items} {c d : Bytes}
        → Spells v c
        → SpellsItems xs d
        → SpellsItems (item v xs) (c ++ d)

  pub data SpellsFields : Fields → Bytes → Type 0 where
    no_others : SpellsFields no_fields []
    a_field :
        {k : Bytes} {v : Value} {fs : Fields} {c d e : Bytes}
        → SpellsString k c
        → Spells v d
        → SpellsFields fs e
        → SpellsFields (field k v fs) (c ++ (d ++ e))

-- Every string is short enough for an `int`, and every integer lies in an `int64_t`.
unfoldable mutual
  pub Fits : Value → Type 0
  Fits (int i) = FitsInt i
  Fits (str b) = FitsString b
  Fits (list xs) = ItemsFit xs
  Fits (dict fs) = FieldsFit fs

  pub ItemsFit : Items → Type 0
  ItemsFit no_items = Unit {0}
  ItemsFit (item v xs) = Fits v × ItemsFit xs

  pub FieldsFit : Fields → Type 0
  FieldsFit no_fields = Unit {0}
  FieldsFit (field k v fs) = FitsString k × Fits v × FieldsFit fs
