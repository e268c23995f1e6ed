-- ===== src/Parser/Reads.antt =====
-- One value or one round of a loop, where the values inside have been read.
use btor.Base.{ℕ, suc, ◌+◌, ◌<◌, ◌^◌, ◌≡◌, refl, ap, Bool, true, false, [], ◌∷◌, ◌++◌, ◌∙◌}
use btor.Base.{Bytes, length, if◌then◌else◌, ◌==◌}
use btor.Base.Decimal.{decimal-AllDigits, decimal-cons}
use btor.Base.Outcome.{ok}
use btor.Bencode.{
  Value, Items, Fields, int, str, encode_string, encode_int, own_length, IsReadable, FitsLength,
}
use btor.Cursor.{World, Cmd}
use btor.Cursor.Sees.{Sees, advance, eat, consume-Sees, peek-Sees}
use btor.Memory.Amend.{amend, Open, update-Open}
use btor.Memory.Build.{build, build_items, build_fields, pushed, added, created, Open-build}
use btor.Memory.{next}
use btor.Object.Dict.{Ptr}
use btor.Object.{b_list, b_dict, of_kind, of_int, of_string, BObject, push_back, add_key_value}
use btor.Parser.Integers.{parse_integer-encode}
use btor.Parser.Lengths.{Collected}
use btor.Parser.Scan.{scan, scan_items, scan_fields, mark, settle, Sees-settle}
use btor.Parser.Steps.{
  after, alloc-created, push_back-Open, add_key_value-Open, before_value-mark, parse_arbitrary-Sees,
  dispatch-digit, after_value-settle,
}
use btor.Parser.Strings.{extract_string-encode}
use btor.Parser.{
  parse_arbitrary, parse_list, list_loop, parse_dictionary, dictionary_loop, parse_string, dispatch,
  extract_string,
}

if_apply :
    (b : Bool) (x y : Cmd (Unit {0})) (w : World)
    → (if b then x else y) w ≡ (if b then x w else y w)
if_apply true x y w = refl
if_apply false x y w = refl

-- What a call needs: its text and then `rest` before the cursor, and room in `collectedLength`.
pub record Ready (text rest : Bytes) (total n : ℕ) (w : World) : Type 0 where
  pub sees : Sees (text ++ rest) w.parser
  pub collected : Collected n w.parser
  pub small : n + total < 2 ^ 63

-- The loops' states after their container `p` has been filled.
abbrev pub after_items : Items → Ptr → World → World
after_items xs p w = record { parser = scan_items xs w.parser; memory = build_items xs p w.memory }

abbrev pub after_fields : Fields → Ptr → World → World
after_fields fs p w = record {
  parser = scan_fields fs w.parser;
  memory = build_fields fs p w.memory;
}

pub read_string :
    (f : ℕ) (b rest : Bytes) (w : World)
    → length b < 2 ^ 31
    → Sees (encode_string b ++ rest) w.parser
    → length (encode_string b) < f
    → parse_arbitrary (suc f) w ≡ ok (next w.memory, after (str b) w)
unfolding scan build encode_string
read_string f b rest w fits s h =
    let (c, cs, e) = decimal-cons (length b) in
    let digits = rw e at (decimal-AllDigits (length b)) in
    let s' : Sees (c ∷ ((cs ++ b':' ∷ b) ++ rest)) w.parser = rw e at s in
    parse_arbitrary-Sees f c w s'
    ∙ ap (λ g. g w) (dispatch-digit c _ _ _ _ digits.0)
    ∙ unfold parse_string in
      rw (extract_string-encode b rest f w fits s h)
        (alloc-created (of_string b) (eat (encode_string b) w))

pub read_int :
    (f : ℕ) (i : _) (rest : Bytes) (w : World)
    → IsReadable (int i)
    → Sees (b'i' ∷ (encode_int i ++ rest)) w.parser
    → length (encode_int i) < f
    → parse_arbitrary (suc f) w ≡ ok (next w.memory, after (int i) w)
unfolding scan build IsReadable
read_int f i rest w fits s h =
    parse_arbitrary-Sees f b'i' w s
    ∙ unfold dispatch in
      (parse_integer-encode i rest f w fits s h)
      ∙ alloc-created (of_int i) (eat (b'i' ∷ encode_int i) w)

-- The container `p` after `v` has been read and put into it, and the fields of the parser.
abbrev pub after_item : Value → Ptr → World → World
after_item v p w = record {
  parser = scan v w.parser;
  memory = amend p (pushed (next w.memory)) (build v w.memory);
}

-- The same, where `w` is the state in which the value has been read.
abbrev pub pushed_in : Ptr → Ptr → World → World
pushed_in q p w = record w { memory = amend p (pushed q) w.memory }

abbrev pub added_in : Bytes → Value → Ptr → Ptr → World → World
added_in k v q p w = record { parser = settle k v w.parser; memory = amend p (added k q) w.memory }

abbrev pub marked : Bytes → World → World
marked k w = record w { parser = mark k w.parser }

abbrev pub after_key : Bytes → World → World
after_key k w = record w { parser = mark k (advance (encode_string k) w.parser) }

abbrev pub after_field : Bytes → Value → Ptr → World → World
after_field k v p w = record {
  parser = settle k v (scan v (after_key k w).parser);
  memory = amend p (added k (next w.memory)) (build v w.memory);
}

-- A round of each loop, over what has been read in it.
pub list_loop-item :
    (f : ℕ) (p : Ptr) (v : Value) (c : ℕ) (more : Bytes) (w w₁ : World)
    → Open b_list p w.memory
    → parse_arbitrary f w ≡ ok (next w.memory, w₁)
    → w₁.memory ≡ build v w.memory
    → Sees (c ∷ more) w₁.parser
    → list_loop (suc f) p w ≡ (
        if c == b'e'
        then ok (tt, pushed_in (next w.memory) p w₁)
        else list_loop f p (pushed_in (next w.memory) p w₁))
unfolding list_loop
list_loop-item f p v c more w w₁ here read same s =
    let here' : Open b_list p w₁.memory = rw same (Open-build v here) in
    let q = next w.memory in
    rw read (
      rw (update-Open (push_back q) (pushed q) w₁ here' (push_back-Open p q w₁ here'))
        (rw (peek-Sees (pushed_in q p w₁) s) (if_apply (c == b'e') _ _ (pushed_in q p w₁))))

pub dictionary_loop-field :
    (f : ℕ) (p : Ptr) (k : Bytes) (v : Value) (c n : ℕ) (more : Bytes) (w wk w₁ : World)
    → Open b_dict p w.memory
    → FitsLength k v
    → extract_string f w ≡ ok (k, wk)
    → parse_arbitrary f (marked k wk) ≡ ok (next w.memory, w₁)
    → w₁.memory ≡ build v w.memory
    → Collected n w₁.parser
    → n + own_length k v < 2 ^ 63
    → Sees (c ∷ more) w₁.parser
    → dictionary_loop (suc f) p w ≡ (
        if c == b'e'
        then ok (tt, added_in k v (next w.memory) p w₁)
        else dictionary_loop f p (added_in k v (next w.memory) p w₁))
unfolding dictionary_loop
dictionary_loop-field f p k v c n more w wk w₁ here own key read same col small s =
    let here' : Open b_dict p w₁.memory = rw same (Open-build v here) in
    let q = next w.memory in
    let w₂ = record w₁ { parser = settle k v w₁.parser } in
    rw key (
      rw (before_value-mark k wk) (
        rw read (
          rw (after_value-settle k v n w₁ w.memory same own col small) (
            rw
              (update-Open (add_key_value k q) (added k q) w₂ here'
                (add_key_value-Open p k q w₂ here'))
              (rw (peek-Sees (added_in k v q p w₁) (Sees-settle k v s))
                (if_apply (c == b'e') _ _ (added_in k v q p w₁)))))))

-- The state in which a loop begins: the opening letter is read, an empty container allocated.
abbrev pub opened : ℕ → BObject → World → World
opened c o w = record { parser = advance (c ∷ []) w.parser; memory = created o w.memory }

module _ (f : ℕ) {rest more : Bytes} (w w' : World) (last : Sees (b'e' ∷ more) w'.parser) where
  pub read_list :
      Sees (b'l' ∷ rest) w.parser
      → list_loop f (next w.memory) (opened b'l' (of_kind b_list) w) ≡ ok (tt, w')
      → parse_arbitrary (suc (suc f)) w ≡ ok (next w.memory, eat (b'e' ∷ []) w')
  unfolding dispatch parse_list advance
  read_list s e =
      parse_arbitrary-Sees (suc f) b'l' w s
      ∙ rw (consume-Sees w s) (
          rw (alloc-created (of_kind b_list) (eat (b'l' ∷ []) w))
            (rw e (rw (consume-Sees w' last))))

  pub read_dictionary :
      Sees (b'd' ∷ rest) w.parser
      → dictionary_loop f (next w.memory) (opened b'd' (of_kind b_dict) w) ≡ ok (tt, w')
      → parse_arbitrary (suc (suc f)) w ≡ ok (next w.memory, eat (b'e' ∷ []) w')
  unfolding dispatch parse_dictionary advance
  read_dictionary s e =
      parse_arbitrary-Sees (suc f) b'd' w s
      ∙ rw (consume-Sees w s) (
          rw (alloc-created (of_kind b_dict) (eat (b'd' ∷ []) w))
            (rw e (rw (consume-Sees w' last))))
