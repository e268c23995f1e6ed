-- ===== src/Print/Reorders.antt =====
-- The order of the fields in a dictionary's text does not matter to what is made of it.
use Prim.Native.Nat.{Ordering}
use btor.Base.{ℕ, ◌+◌, ◌≤◌, ◌≡◌, ◌≢◌, refl, sym, ap, [], ◌∷◌, ◌++◌, ◌∙◌, inl, inr, arith}
use btor.Base.{Bytes, bytes_compare, length, length-append}
use btor.Base.Order.{
  bytes_compare_refl, bytes_compare→eq, bytes_compare_trans, bytes_compare_flip, Ordering-cases,
}
use btor.Base.Outcome.{ok}
use btor.Bencode.{
  Value, Fields, dict, field, encode, encode_fields, encode_string, HasField, IsReadable,
  FieldsReadable, total_length,
}
use btor.Cursor.{World}
use btor.Object.Dict.{Ptr}
use btor.Parser.Results.{Prints}
use btor.Parser.{parse_bencoded_string}
use btor.Print.Shows.{
  Entries, enter, show, show_fields, size, size_fields, print_object-parse-encode,
}
use btor.Print.{print_object}

-- The three branches of `enter` at an entry.
module _ (k a t u : Bytes) (es : Entries) where
  enter-lt : bytes_compare k a ≡ Ordering.lt → enter k t ((a, u) ∷ es) ≡ (k, t) ∷ (a, u) ∷ es
  unfolding enter
  enter-lt e = rw (e, enter) refl

  enter-eq : bytes_compare k a ≡ Ordering.eq → enter k t ((a, u) ∷ es) ≡ (a, u) ∷ es
  unfolding enter
  enter-eq e = rw (e, enter) refl

  enter-gt : bytes_compare k a ≡ Ordering.gt → enter k t ((a, u) ∷ es) ≡ (a, u) ∷ enter k t es
  unfolding enter
  enter-gt e = rw (e, enter) refl

flipped : (j k : Bytes) → bytes_compare j k ≡ Ordering.lt → bytes_compare k j ≡ Ordering.gt
flipped j k lt = elim (Ordering-cases (bytes_compare k j)) [
  | inl e ↦ absurd (cc (bytes_compare_trans j k j lt e, bytes_compare_refl j))
  | inr (inl e) ↦
      let same : k ≡ j = bytes_compare→eq k j e in absurd (cc (lt, same, bytes_compare_refl j))
  | inr (inr e) ↦ e
]

enter-enter_lt :
    (j k s t : Bytes) (es : Entries)
    → bytes_compare j k ≡ Ordering.lt
    → enter j s (enter k t es) ≡ enter k t (enter j s es)
unfolding enter
enter-enter_lt j k s t [] lt = enter-lt j k s t [] lt ∙ sym (enter-gt k j t s [] (flipped j k lt))
enter-enter_lt j k s t ((a, u) ∷ es) lt = elim (Ordering-cases (bytes_compare k a)) [
  | inl c ↦
      let below = bytes_compare_trans j k a lt c in
      ap (enter j s) (enter-lt k a t u es c)
      ∙ enter-lt j k s t ((a, u) ∷ es) lt
      ∙ sym (
          ap (enter k t) (enter-lt j a s u es below)
          ∙ enter-gt k j t s ((a, u) ∷ es) (flipped j k lt)
          ∙ ap (λ (r : Entries). (j, s) ∷ r) (enter-lt k a t u es c))
  | inr (inl c) ↦
      let below : bytes_compare j a ≡ Ordering.lt = rw (bytes_compare→eq k a c) at lt in
      ap (enter j s) (enter-eq k a t u es c)
      ∙ enter-lt j a s u es below
      ∙ sym (
          ap (enter k t) (enter-lt j a s u es below)
          ∙ enter-gt k j t s ((a, u) ∷ es) (flipped j k lt)
          ∙ ap (λ (r : Entries). (j, s) ∷ r) (enter-eq k a t u es c))
  | inr (inr c) ↦
      ap (enter j s) (enter-gt k a t u es c) ∙ elim (Ordering-cases (bytes_compare j a)) [
        | inl d ↦
            enter-lt j a s u (enter k t es) d
            ∙ sym (
                ap (enter k t) (enter-lt j a s u es d)
                ∙ enter-gt k j t s ((a, u) ∷ es) (flipped j k lt)
                ∙ ap (λ (r : Entries). (j, s) ∷ r) (enter-gt k a t u es c))
        | inr (inl d) ↦
            enter-eq j a s u (enter k t es) d
            ∙ sym (ap (enter k t) (enter-eq j a s u es d) ∙ enter-gt k a t u es c)
        | inr (inr d) ↦
            enter-gt j a s u (enter k t es) d
            ∙ ap (λ (r : Entries). (a, u) ∷ r) (enter-enter_lt j k s t es lt)
            ∙ sym (ap (enter k t) (enter-gt j a s u es d) ∙ enter-gt k a t u (enter j s es) c)
      ]
]

-- Two texts under different keys can be entered in either order.
enter-enter :
    (j k s t : Bytes) (es : Entries)
    → bytes_compare j k ≢ Ordering.eq
    → enter j s (enter k t es) ≡ enter k t (enter j s es)
enter-enter j k s t es ne = elim (Ordering-cases (bytes_compare j k)) [
  | inl c ↦ enter-enter_lt j k s t es c
  | inr (inl c) ↦ absurd (ne c)
  | inr (inr c) ↦ sym (enter-enter_lt k j t s es (bytes_compare_flip j k c))
]

-- Fields that stand under different keys change their places.
pub data Reorders : Fields → Fields → Type 0 where
  swap :
      (j k : Bytes) (u v : Value) (fs : Fields)
      → bytes_compare j k ≢ Ordering.eq
      → Reorders (field j u (field k v fs)) (field k v (field j u fs))
  under :
      {fs gs : Fields} (k : Bytes) (v : Value)
      → Reorders fs gs
      → Reorders (field k v fs) (field k v gs)
  chain : {fs gs hs : Fields} → Reorders fs gs → Reorders gs hs → Reorders fs hs

show_fields-Reorders :
    {fs gs : Fields} (es : Entries) → Reorders fs gs → show_fields fs es ≡ show_fields gs es
unfolding show
show_fields-Reorders es (swap j k u v fs ne) =
    ap (show_fields fs) (sym (enter-enter j k (show u) (show v) es ne))
show_fields-Reorders es (under k v r) = show_fields-Reorders (enter k (show v) es) r
show_fields-Reorders es (chain r q) = show_fields-Reorders es r ∙ show_fields-Reorders es q

show-Reorders : {fs gs : Fields} → Reorders fs gs → show (dict fs) ≡ show (dict gs)
unfolding show
show-Reorders r = rw (show_fields-Reorders [] r) refl

size-Reorders : {fs gs : Fields} → Reorders fs gs → size_fields fs ≡ size_fields gs
unfolding size
size-Reorders (swap j k u v fs ne) = omega arith
size-Reorders (under k v r) = omega (arith, size-Reorders r)
size-Reorders (chain r q) = size-Reorders r ∙ size-Reorders q

total-Reorders : {fs gs : Fields} → Reorders fs gs → total_length (dict fs) ≡ total_length (dict gs)
unfolding total_length
total-Reorders (swap j k u v fs ne) = omega arith
total-Reorders (under k v r) = omega (arith, total-Reorders r)
total-Reorders (chain r q) = total-Reorders r ∙ total-Reorders q

length-field :
    (k : Bytes) (v : Value) (fs : Fields)
    → length (encode_fields (field k v fs))
      ≡ length (encode_string k) + length (encode v) + length (encode_fields fs)
unfolding encode
length-field k v fs = omega (
  arith,
  length-append (encode_string k) (encode v ++ encode_fields fs),
  length-append (encode v) (encode_fields fs),
)

length-Reorders :
    {fs gs : Fields} → Reorders fs gs → length (encode_fields fs) ≡ length (encode_fields gs)
length-Reorders (swap j k u v fs ne) = omega (
  arith,
  length-field j u (field k v fs),
  length-field k v fs,
  length-field k v (field j u fs),
  length-field j u fs,
)
length-Reorders (under {fs} {gs} k v r) =
    omega (arith, length-field k v fs, length-field k v gs, length-Reorders r)
length-Reorders (chain r q) = length-Reorders r ∙ length-Reorders q

length-dict :
    (fs : Fields) (rest : Bytes)
    → length (encode (dict fs) ++ rest) ≡ length (encode_fields fs) + 2 + length rest
unfolding encode
length-dict fs rest = omega (
  arith,
  length-append (b'd' ∷ (encode_fields fs ++ b'e' ∷ [])) rest,
  length-append (encode_fields fs) (b'e' ∷ []),
)

FieldsReadable-Reorders : {fs gs : Fields} → Reorders fs gs → FieldsReadable fs → FieldsReadable gs
unfolding IsReadable
FieldsReadable-Reorders (swap j k u v fs ne) (a, b, c, (d, e, f, rest)) = (d, e, f, (a, b, c, rest))
FieldsReadable-Reorders (under k v r) (a, b, c, rest) = (a, b, c, FieldsReadable-Reorders r rest)
FieldsReadable-Reorders (chain r q) h = FieldsReadable-Reorders q (FieldsReadable-Reorders r h)

HasField-Reorders : {fs gs : Fields} → Reorders fs gs → HasField gs
HasField-Reorders (swap j k u v fs ne) = tt
HasField-Reorders (under k v r) = tt
HasField-Reorders (chain r q) = HasField-Reorders q

Prints-Reorders :
    {fs gs : Fields} {rest : Bytes} {n : ℕ} {w : World}
    → Reorders fs gs
    → Prints (dict fs) rest n w
    → Prints (dict gs) rest n w
unfolding IsReadable
Prints-Reorders {fs} {gs} {rest} r h = record {
  readable = (HasField-Reorders r, FieldsReadable-Reorders r h.readable.1);
  small = omega (arith, length-dict fs rest, length-dict gs rest, length-Reorders r, h.small);
  collected = h.collected;
  room = omega (arith, total-Reorders r, h.room);
}

-- Where fields under different keys change their places in the text of a readable dictionary, the
-- parser reads the one text as well as the other, and what it makes of them is written as the same
-- text, when writing may go as deep as there are objects in the value.
pub print_object-Reorders :
    (fs gs : Fields) (rest : Bytes) (n : ℕ) (w : World) (f : ℕ)
    → Reorders fs gs
    → Prints (dict fs) rest n w
    → size (dict fs) ≤ f
    → (s : Bytes) × (p q : Ptr) × (w₁ w₂ : World) × (parse_bencoded_string
          (encode (dict fs) ++ rest)
          w
        ≡ ok (p, w₁))
      × (print_object f w₁.memory p ≡ ok s)
      × (parse_bencoded_string (encode (dict gs) ++ rest) w ≡ ok (q, w₂))
      × (print_object f w₂.memory q ≡ ok s)
unfolding size
print_object-Reorders fs gs rest n w f r h le =
    let (p, w₁, reads, writes) = print_object-parse-encode (dict fs) rest n w f h le in
    let (q, w₂, reads', writes') =
      print_object-parse-encode (dict gs) rest n w f (Prints-Reorders r h)
        (omega (arith, size-Reorders r, le)) in
    (show (dict fs), p, q, w₁, w₂, reads, writes, reads', writes' ∙ ap ok (sym (show-Reorders r)))
