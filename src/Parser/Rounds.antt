-- ===== src/Parser/Rounds.antt =====
-- The first round of a loop, and the loop over what is left, make the loop.
use btor.Base.{
  ℕ, zero, suc, ◌+◌, ◌*◌, ◌<◌, ◌≡◌, refl, false, [], ◌∷◌, ◌++◌, ◌∙◌, arith, append_assoc,
  append-nil,
}
use btor.Base.{Bytes, length, if◌then◌else◌, ◌==◌, length-append}
use btor.Base.Outcome.{ok}
use btor.Bencode.{
  Value, Items, Fields, str, no_items, item, no_fields, field, encode, encode_items, encode_fields,
  encode_string, IsCons, HasField, FitsString, FitsLength, total_length, total_fields,
}
use btor.Cursor.{World}
use btor.Cursor.Sees.{Sees, eat}
use btor.Parser.Strings.{extract_string-encode}
use btor.Memory.Amend.{Open}
use btor.Memory.Build.{build}
use btor.Memory.{next}
use btor.Object.Dict.{Ptr}
use btor.Object.{b_list, b_dict}
use btor.Parser.Lengths.{scan-Collected}
use btor.Parser.Scan.{scan, scan-Sees}
use btor.Parser.Steps.{after, encode-head}
use btor.Parser.{parse_arbitrary, list_loop, dictionary_loop}
use btor.Parser.Reads.{
  Ready, after_items, after_fields, after_item, after_key, after_field, list_loop-item,
  dictionary_loop-field,
}
use btor.Parser.Ready.{Ready-value, length-encode_pos}

-- The first round of a loop, and the loop over what is left, make the loop.
pub more_items :
    (v : Value) (xs : Items) (p : Ptr) (rest : Bytes) (w : World)
    → Open b_list p w.memory
    → Sees (encode_items (item v xs) ++ b'e' ∷ rest) w.parser
    → ((k : ℕ)
        → 3 * length (encode v) + 3 < k
        → parse_arbitrary k w ≡ ok (next w.memory, after v w))
    → (IsCons xs
        → (k : ℕ) → 3 * length (encode_items xs) + 4 < k
        → list_loop k p (after_item v p w) ≡ ok (tt, after_items xs p (after_item v p w)))
    → (f : ℕ) → 3 * length (encode_items (item v xs)) + 4 < f
    → list_loop f p w ≡ ok (tt, after_items (item v xs) p w)
unfolding encode scan build
more_items v xs p rest w here s first others zero h = absurd (omega arith)
more_items v no_items p rest w here s first others (suc k) h =
    list_loop-item k p v b'e' rest w (after v w) here
      (first k (omega (arith, length-append (encode v) []))) refl
      (scan-Sees v (b'e' ∷ rest) w.parser (rw append-nil at s))
more_items v (item u us) p rest w here s first others (suc k) h =
    let (c, cs, e, ne) = encode-head u in
    let size = length-append (encode v) (encode_items (item u us)) in
    let s' : Sees (encode_items (item u us) ++ b'e' ∷ rest) (scan v w.parser) =
      scan-Sees v (encode_items (item u us) ++ b'e' ∷ rest) w.parser (rw append_assoc at s) in
    list_loop-item k p v c ((cs ++ encode_items us) ++ b'e' ∷ rest) w (after v w) here
      (first k (omega (arith, size))) refl (rw e at s')
    ∙ rw ne (others tt k (omega (arith, size, length-encode_pos v)))

-- a printed field begins with a digit
fields-head :
    (k : Bytes) (v : Value) (fs : Fields)
    → (c : ℕ) × (cs : Bytes) × (encode_fields (field k v fs) ≡ c ∷ cs) × ((c == b'e') ≡ false)
unfolding encode
fields-head k v fs =
    let (c, cs, e, ne) = encode-head (str k) in (c, cs ++ (encode v ++ encode_fields fs), rw e, ne)

length-fields :
    (k : Bytes) (v : Value) (fs : Fields)
    → length (encode_fields (field k v fs))
      ≡ length (encode_string k) + length (encode v) + length (encode_fields fs)
unfolding encode
length-fields k v fs = omega (
  arith,
  length-append (encode_string k) (encode v ++ encode_fields fs),
  length-append (encode v) (encode_fields fs),
)

-- A round on a field, where what comes after it begins with `c`.
first_field :
    (k : Bytes) (v : Value) (fs : Fields) (p : Ptr) (n c : ℕ) (rest more : Bytes) (w : World)
    → Open b_dict p w.memory
    → FitsString k
    → FitsLength k v
    → Ready (encode_fields (field k v fs)) rest (total_fields (field k v fs)) n w
    → ((f : ℕ)
        → 3 * length (encode v) + 3 < f
        → parse_arbitrary f (after_key k w) ≡ ok (next w.memory, after v (after_key k w)))
    → encode_fields fs ++ rest ≡ c ∷ more
    → (f : ℕ) → 3 * length (encode_fields (field k v fs)) + 4 < suc f
    → dictionary_loop (suc f) p w ≡ (
        if c == b'e'
        then ok (tt, after_field k v p w)
        else dictionary_loop f p (after_field k v p w))
unfolding encode total_length
first_field k v fs p n c rest more w here fits own r first e f h =
    let r' = Ready-value k v fs w r in
    let wk = after_key k w in
    let size = length-fields k v fs in
    let s : Sees (encode_fields fs ++ rest) (scan v wk.parser) =
      scan-Sees v (encode_fields fs ++ rest) wk.parser (rw append_assoc at r'.sees) in
    dictionary_loop-field f p k v c (n + total_length v) more w (eat (encode_string k) w)
      (after v wk) here own
      (extract_string-encode k ((encode v ++ encode_fields fs) ++ rest) f w fits
        (rw append_assoc at r.sees) (omega (arith, size)))
      (first f (omega (arith, size))) refl (scan-Collected v n wk.parser r'.collected)
      (omega (arith, r.small)) (rw e at s)

pub more_fields :
    (k : Bytes) (v : Value) (fs : Fields) (p : Ptr) (n : ℕ) (rest : Bytes) (w : World)
    → Open b_dict p w.memory
    → FitsString k
    → FitsLength k v
    → Ready (encode_fields (field k v fs)) (b'e' ∷ rest) (total_fields (field k v fs)) n w
    → ((f : ℕ)
        → 3 * length (encode v) + 3 < f
        → parse_arbitrary f (after_key k w) ≡ ok (next w.memory, after v (after_key k w)))
    → (HasField fs
        → (f : ℕ) → 3 * length (encode_fields fs) + 4 < f
        → dictionary_loop f p (after_field k v p w)
          ≡ ok (tt, after_fields fs p (after_field k v p w)))
    → (f : ℕ) → 3 * length (encode_fields (field k v fs)) + 4 < f
    → dictionary_loop f p w ≡ ok (tt, after_fields (field k v fs) p w)
unfolding scan build
more_fields k v fs p n rest w here fits own r first others zero h = absurd (omega arith)
more_fields k v no_fields p n rest w here fits own r first others (suc f) h =
    first_field k v no_fields p n b'e' (b'e' ∷ rest) rest w here fits own r first
      (unfold encode in refl) f h
more_fields k v (field k' v' fs) p n rest w here fits own r first others (suc f) h =
    let (c, cs, e, ne) = fields-head k' v' fs in
    first_field k v (field k' v' fs) p n c (b'e' ∷ rest) (cs ++ b'e' ∷ rest) w here fits own r first
      (rw e) f h
    ∙ rw ne (others tt f (omega (arith, length-fields k v (field k' v' fs), length-encode_pos v)))
