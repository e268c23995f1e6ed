-- ===== src/Parser/RoundTrip.antt =====
-- The parser reads a printed value back: one induction over the values.
use btor.Base.{ℕ, ◌+◌, ◌*◌, ◌<◌, ◌≡◌, ◌∷◌, arith}
use btor.Base.{Bytes, length}
use btor.Base.Outcome.{ok}
use btor.Bencode.{
  Value, Items, Fields, int, str, list, dict, no_items, item, no_fields, field, encode,
  encode_items, encode_fields, own_length, IsReadable, AllReadable, FieldsReadable, IsCons,
  HasField, total_length, total_items, total_fields,
}
use btor.Cursor.{World}
use btor.Memory.Amend.{Open, get_new-Open}
use btor.Memory.Build.{build}
use btor.Memory.{next}
use btor.Object.Dict.{Ptr}
use btor.Object.{b_list, b_dict, of_kind}
use btor.Parser.Scan.{scan}
use btor.Parser.Steps.{after}
use btor.Parser.{parse_arbitrary, list_loop, dictionary_loop}
use btor.Parser.Reads.{
  opened, Ready, after_items, after_fields, after_item, after_key, after_field, read_string,
  read_int,
}
use btor.Parser.Ready.{
  above, Ready-opened, Ready-first, Ready-next, Open-after_item, fill_list, fill_dict, Ready-value,
  Ready-settled, Open-after_field,
}
use btor.Parser.Rounds.{more_items, more_fields}

mutual
  unfolding encode IsReadable total_length scan build

  read_value :
      (v : Value) (f n : ℕ) (rest : Bytes) (w : World)
      → IsReadable v
      → Ready (encode v) rest (total_length v) n w
      → 3 * length (encode v) + 3 < f
      → parse_arbitrary f w ≡ ok (next w.memory, after v w)
  read_value (int i) f n rest w fits r h =
      above f (λ k. parse_arbitrary k w ≡ ok (next w.memory, after (int i) w)) h
        (λ k b. read_int k i rest w fits r.sees (omega arith))
  read_value (str b) f n rest w fits r h =
      above f (λ k. parse_arbitrary k w ≡ ok (next w.memory, after (str b) w)) h
        (λ k b. read_string k _ rest w fits r.sees (omega arith))
  read_value (list xs) f n rest w fits r h =
      fill_list xs rest w r.sees
        (λ k b.
          read_items xs (next w.memory) k n rest (opened b'l' (of_kind b_list) w) fits.0 fits.1
            (Ready-opened b'l' (of_kind b_list) w r) (get_new-Open (of_kind b_list) w.memory) b)
        f h
  read_value (dict fs) f n rest w fits r h =
      fill_dict fs rest w r.sees
        (λ k b.
          read_fields fs (next w.memory) k n rest (opened b'd' (of_kind b_dict) w) fits.0 fits.1
            (Ready-opened b'd' (of_kind b_dict) w r) (get_new-Open (of_kind b_dict) w.memory) b)
        f h

  read_items :
      (xs : Items) (p : Ptr) (f n : ℕ) (rest : Bytes) (w : World)
      → IsCons xs
      → AllReadable xs
      → Ready (encode_items xs) (b'e' ∷ rest) (total_items xs) n w
      → Open b_list p w.memory
      → 3 * length (encode_items xs) + 4 < f
      → list_loop f p w ≡ ok (tt, after_items xs p w)
  read_items no_items p f n rest w cons all r here h = absurd cons
  read_items (item v xs) p f n rest w cons all r here h =
      more_items v xs p rest w here r.sees
        (λ k b. read_value v k n _ w all.0 (Ready-first v (encode_items xs) (total_items xs) w r) b)
        (λ c k b.
          read_items xs p k (n + total_length v) rest (after_item v p w) c all.1
            (Ready-next v (encode_items xs) (total_items xs) p w r) (Open-after_item v w here) b)
        f h

  read_fields :
      (fs : Fields) (p : Ptr) (f n : ℕ) (rest : Bytes) (w : World)
      → HasField fs
      → FieldsReadable fs
      → Ready (encode_fields fs) (b'e' ∷ rest) (total_fields fs) n w
      → Open b_dict p w.memory
      → 3 * length (encode_fields fs) + 4 < f
      → dictionary_loop f p w ≡ ok (tt, after_fields fs p w)
  read_fields no_fields p f n rest w has all r here h = absurd has
  read_fields (field k v fs) p f n rest w has all r here h =
      more_fields k v fs p n rest w here all.0 all.1 r
        (λ f' b.
          read_value v f' n _ (after_key k w) all.2
            (Ready-first v (encode_fields fs) (total_fields fs) (after_key k w)
              (Ready-value k v fs w r))
            b)
        (λ c f' b.
          read_fields fs p f' (n + total_length v + own_length k v) rest (after_field k v p w) c
            all.3 (Ready-settled k v fs p w r) (Open-after_field k v w here) b)
        f h

-- A parser that stands before the print of a readable value, with room for its lengths and enough
-- fuel, reads it: the result is the next address, and the state is `after v`.
pub parse_arbitrary-encode :
    (v : Value) (f n : ℕ) (rest : Bytes) (w : World)
    → IsReadable v
    → Ready (encode v) rest (total_length v) n w
    → 3 * length (encode v) + 3 < f
    → parse_arbitrary f w ≡ ok (next w.memory, after v w)
parse_arbitrary-encode = read_value
