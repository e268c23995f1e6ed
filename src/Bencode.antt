-- ===== src/Bencode.antt =====
-- The bencoding format as the comments at the top of btor/bencode.cpp describe it: an independent
-- description of the texts, against which the parser is stated.
use btor.Base.{ℕ, suc, ◌+◌, ◌^◌, ◌<◌, ◌≡◌, false, [], ◌∷◌, ◌++◌, Bytes, length, if◌then◌else◌}
use btor.Base.Decimal.{decimal, decimal_int}
use btor.Base.Int.{ℤ, pos, negsuc}
use btor.Parser.{is_length}

mutual
  pub data Value : Type 0 where
    int : ℤ → Value
    str : Bytes → Value
    list : Items → Value
    dict : Fields → Value

  pub data Items : Type 0 where
    no_items : Items
    item : Value → Items → Items

  pub data Fields : Type 0 where
    no_fields : Fields
    field : Bytes → Value → Fields → Fields

-- <length in base ten>:<bytes>
unfoldable pub encode_string : Bytes → Bytes
encode_string b = decimal (length b) ++ b':' ∷ b

unfoldable pub encode_int : ℤ → Bytes
encode_int i = decimal_int i ++ b'e' ∷ []

unfoldable mutual
  pub encode : Value → Bytes
  encode (int i) = b'i' ∷ encode_int i
  encode (str b) = encode_string b
  encode (list xs) = b'l' ∷ (encode_items xs ++ b'e' ∷ [])
  encode (dict fs) = b'd' ∷ (encode_fields fs ++ b'e' ∷ [])

  pub encode_items : Items → Bytes
  encode_items no_items = []
  encode_items (item v xs) = encode v ++ encode_items xs

  pub encode_fields : Fields → Bytes
  encode_fields no_fields = []
  encode_fields (field k v fs) = encode_string k ++ (encode v ++ encode_fields fs)

-- An integer whose absolute value fits `int64_t`, and a text whose length fits `int`.
abbrev pub FitsInt : ℤ → Type 0
FitsInt (pos n) = n < 2 ^ 63
FitsInt (negsuc n) = suc n < 2 ^ 63

abbrev pub FitsString : Bytes → Type 0
FitsString b = length b < 2 ^ 31

-- What a field adds to the collected length.
abbrev pub own_length : Bytes → Value → ℕ
own_length k (int (pos n)) = if is_length k then n else 0
own_length k _ = 0

-- A field called "length" holds a natural number.
abbrev pub FitsLength : Bytes → Value → Type 0
FitsLength k (int (pos n)) = Unit {0}
FitsLength k _ = is_length k ≡ false

abbrev pub IsCons : Items → Type 0
IsCons no_items = ⊥
IsCons (item v xs) = Unit {0}

abbrev pub HasField : Fields → Type 0
HasField no_fields = ⊥
HasField (field k v fs) = Unit {0}

-- The values that the parser can read: no list and no dictionary is empty.
unfoldable mutual
  pub IsReadable : Value → Type 0
  IsReadable (int i) = FitsInt i
  IsReadable (str b) = FitsString b
  IsReadable (list xs) = IsCons xs × AllReadable xs
  IsReadable (dict fs) = HasField fs × FieldsReadable fs

  pub AllReadable : Items → Type 0
  AllReadable no_items = Unit {0}
  AllReadable (item v xs) = IsReadable v × AllReadable xs

  pub FieldsReadable : Fields → Type 0
  FieldsReadable no_fields = Unit {0}
  FieldsReadable (field k v fs) = FitsString k × FitsLength k v × IsReadable v × FieldsReadable fs

-- The sum of all fields called "length", at any depth.
unfoldable mutual
  pub total_length : Value → ℕ
  total_length (int i) = 0
  total_length (str b) = 0
  total_length (list xs) = total_items xs
  total_length (dict fs) = total_fields fs

  pub total_items : Items → ℕ
  total_items no_items = 0
  total_items (item v xs) = total_length v + total_items xs

  pub total_fields : Fields → ℕ
  total_fields no_fields = 0
  total_fields (field k v fs) = own_length k v + total_length v + total_fields fs
