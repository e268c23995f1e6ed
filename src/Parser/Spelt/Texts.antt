-- ===== src/Parser/Spelt/Texts.antt =====
-- The recursive descent on the texts of the grammar: one induction over the fuel.
use btor.Base.{ℕ, zero, suc, ◌+◌, ◌*◌, ◌≤◌, ◌<◌, ◌≡◌, [], ◌∷◌, ◌++◌, arith, append_assoc}
use btor.Base.{Bytes, length, length-append}
use btor.Bencode.{
  Value, Items, Fields, IsReadable, AllReadable, FieldsReadable, IsCons, HasField, total_length,
  total_items, total_fields,
}
use btor.Cursor.Sees.{Sees-advance, eat}
use btor.Cursor.{World}
use btor.Memory.Amend.{Open, get_new-Open}
use btor.Memory.Build.{build, build_items, build_fields}
use btor.Memory.{next}
use btor.Object.Dict.{Ptr}
use btor.Object.{b_list, b_dict, of_kind}
use btor.Parser.Lengths.{Collected-advance, Collected-mark}
use btor.Parser.Reads.{Ready, marked}
use btor.Parser.Ready.{Ready-opened, Ready-append}
use btor.Parser.Scan.{Sees-mark}
use btor.Parser.Spells.{
  sign, Spells, an_integer, a_string, a_list, a_dictionary, SpellsItems, no_more, an_item,
  SpellsFields, no_others, a_field,
}
use btor.Parser.Spelt.Lists.{spelt_list, last_item, further_item}
use btor.Parser.Spelt.Dictionaries.{spelt_dictionary, last_field, further_field}
use btor.Parser.Spelt.Values.{
  Reads, Begins, spelt_integer, spelt_string, string-Begins, value-Begins, length-Begins,
}
use btor.Parser.Spelt.{extract_string-SpellsString}
use btor.Parser.{parse_arbitrary, list_loop, dictionary_loop}

-- What is ready for a field is ready for its value, once the key has been read.
Ready-marked :
    (k c d e : Bytes) {rest : Bytes} (t total : ℕ) {n : ℕ} (w : World)
    → t ≤ total
    → Ready (c ++ (d ++ e)) rest total n w
    → Ready d (e ++ rest) t n (marked k (eat c w))
Ready-marked k c d e t total w le r = record {
  sees = Sees-mark k (Sees-advance c (rw (append_assoc, append_assoc) at r.sees));
  collected = Collected-mark k _ (Collected-advance c w.parser r.collected);
  small = omega (arith, r.small);
}

length-field : (c d e : Bytes) → length (c ++ (d ++ e)) ≡ length c + (length d + length e)
length-field c d e = omega (arith, length-append c (d ++ e), length-append d e)

Begins-append : {c : Bytes} (d : Bytes) → Begins c → Begins (c ++ d)
Begins-append d (x, xs, e, ne) = (x, xs ++ d, rw e, ne)

mutual
  unfolding IsReadable total_length

  value-Reads :
      {v : Value} {c : Bytes} (f n : ℕ) (rest : Bytes) (w : World)
      → Spells v c
      → IsReadable v
      → Ready c rest (total_length v) n w
      → 3 * length c + 3 < f
      → Reads (parse_arbitrary f w) (next w.memory) (build v w.memory) rest (n + total_length v)
  value-Reads zero n rest w spelt fits r h = absurd (omega arith)
  value-Reads (suc zero) n rest w spelt fits r h = absurd (omega arith)
  value-Reads (suc (suc f)) n rest w (an_integer negative ds plain) fits r h =
      spelt_integer negative ds rest (suc f) n w plain fits r (
        omega
          (arith, h, length-append (sign negative) (ds ++ b'e' ∷ []), length-append ds (b'e' ∷ [])))
  value-Reads (suc (suc f)) n rest w (a_string starts spelt) fits r h =
      spelt_string _ _ rest (suc f) n w starts spelt fits r (omega arith)
  value-Reads (suc (suc f)) n rest w (a_list {xs} {c} cons spelt) fits r h =
      spelt_list xs c rest f n w r (
        items-Reads (next w.memory) f n rest _ spelt fits.0 fits.1
          (Ready-opened b'l' (of_kind b_list) w r) (get_new-Open (of_kind b_list) w.memory)
          (omega (arith, h, length-append c (b'e' ∷ []))))
  value-Reads (suc (suc f)) n rest w (a_dictionary {fs} {c} has spelt) fits r h =
      spelt_dictionary fs c rest f n w r (
        fields-Reads (next w.memory) f n rest _ spelt fits.0 fits.1
          (Ready-opened b'd' (of_kind b_dict) w r) (get_new-Open (of_kind b_dict) w.memory)
          (omega (arith, h, length-append c (b'e' ∷ []))))

  items-Reads :
      {xs : Items} {c : Bytes} (p : Ptr) (f n : ℕ) (rest : Bytes) (w : World)
      → SpellsItems xs c
      → IsCons xs
      → AllReadable xs
      → Ready c (b'e' ∷ rest) (total_items xs) n w
      → Open b_list p w.memory
      → 3 * length c + 4 < f
      → Reads (list_loop f p w) tt (build_items xs p w.memory) (b'e' ∷ rest) (n + total_items xs)
  items-Reads p zero n rest w spelt cons all r here h = absurd (omega arith)
  items-Reads p (suc f) n rest w no_more cons all r here h = absurd cons
  items-Reads p (suc f) n rest w (an_item {v} {c} one no_more) cons all r here h =
      last_item v p f n rest w here (
        value-Reads f n _ w one all.0 (Ready-append c [] (total_length v) 0 w r)
          (omega (arith, h, length-append c [])))
  items-Reads p (suc f) n rest w (an_item {v} {xs} {c} {d} one (an_item two more)) cons all r here
        h =
      let (x, cs, e, ne) = Begins-append _ (value-Begins two) in
      let size = length-append c d in
      further_item v p f n rest w here xs x cs d e ne
        (value-Reads f n _ w one all.0 (Ready-append c d (total_length v) (total_items xs) w r)
          (omega (arith, h, size)))
        (λ w' here' r'.
          items-Reads p f _ rest w' (an_item two more) tt all.1 r' here'
            (omega (arith, h, size, length-Begins (value-Begins one))))
        r.small

  fields-Reads :
      {fs : Fields} {c : Bytes} (p : Ptr) (f n : ℕ) (rest : Bytes) (w : World)
      → SpellsFields fs c
      → HasField fs
      → FieldsReadable fs
      → Ready c (b'e' ∷ rest) (total_fields fs) n w
      → Open b_dict p w.memory
      → 3 * length c + 4 < f
      → Reads
          (dictionary_loop f p w)
          tt
          (build_fields fs p w.memory)
          (b'e' ∷ rest)
          (n + total_fields fs)
  fields-Reads p zero n rest w spelt has all r here h = absurd (omega arith)
  fields-Reads p (suc f) n rest w no_others has all r here h = absurd has
  fields-Reads p (suc f) n rest w (a_field {k} {v} {c} {d} key one no_others) has all r here h =
      let size = length-field c d [] in
      let found =
        extract_string-SpellsString k c ((d ++ []) ++ b'e' ∷ rest) f w key all.0
          (rw append_assoc at r.sees) (omega (arith, h, size, length-Begins (value-Begins one))) in
      last_field k v p f n rest w (eat c w) here all.1 found
        (value-Reads f n _ (marked k (eat c w)) one all.2
          (Ready-marked k c d [] (total_length v) _ w (omega arith) r) (omega (arith, h, size)))
        r.small
  fields-Reads p (suc f) n rest w (a_field {k} {v} {fs} {c} {d} {e} key one (a_field key' two more))
        has all r here h =
      let (x, cs, at, ne) = Begins-append _ (string-Begins key') in
      let size = length-field c d e in
      let found =
        extract_string-SpellsString k c ((d ++ e) ++ b'e' ∷ rest) f w key all.0
          (rw append_assoc at r.sees) (omega (arith, h, size, length-Begins (value-Begins one))) in
      further_field k v p f n rest w (eat c w) here all.1 found fs x cs e at ne
        (value-Reads f n _ (marked k (eat c w)) one all.2
          (Ready-marked k c d e (total_length v) _ w (omega arith) r) (omega (arith, h, size)))
        (λ w' here' r'.
          fields-Reads p f _ rest w' (a_field key' two more) tt all.3 r' here'
            (omega (arith, h, size, length-Begins (value-Begins one))))
        r.small

-- With enough fuel the parser reads a text that spells a readable value.
pub parse_arbitrary-Reads :
    {v : Value} {c : Bytes} (f n : ℕ) (rest : Bytes) (w : World)
    → Spells v c
    → IsReadable v
    → Ready c rest (total_length v) n w
    → 3 * length c + 3 < f
    → Reads (parse_arbitrary f w) (next w.memory) (build v w.memory) rest (n + total_length v)
parse_arbitrary-Reads = value-Reads
