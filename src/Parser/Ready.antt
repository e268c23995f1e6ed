-- ===== src/Parser/Ready.antt =====
-- What a value needs to be read, passed on to the parts of a container.
use btor.Base.{ℕ, zero, suc, ◌+◌, ◌*◌, ◌<◌, ◌≡◌, refl, [], ◌∷◌, ◌++◌, arith, append_assoc}
use btor.Base.{Bytes, length, length-append}
use btor.Base.Outcome.{ok}
use btor.Bencode.{
  Value, Items, Fields, list, dict, field, encode, encode_items, encode_fields, encode_string,
  own_length, total_length, total_fields,
}
use btor.Cursor.{World}
use btor.Cursor.Sees.{Sees, Sees-advance}
use btor.Memory.Amend.{Open, Open-amend}
use btor.Memory.Build.{build, pushed, added, Open-build}
use btor.Memory.{next}
use btor.Object.Dict.{Ptr}
use btor.Object.{b_list, b_dict, of_kind, BObject}
use btor.Parser.Lengths.{scan-Collected, Collected-advance, Collected-mark, Collected-settle}
use btor.Parser.Scan.{scan, scan-Sees, Sees-scan_items, Sees-scan_fields, Sees-mark, Sees-settle}
use btor.Parser.Steps.{after, encode-head}
use btor.Parser.{parse_arbitrary, list_loop, dictionary_loop}
use btor.Parser.Reads.{
  opened, read_list, read_dictionary, Ready, after_items, after_fields, after_item, after_key,
  after_field,
}

-- A property of every successor above a bound holds of all fuel above it.
pub above {ℓ} :
    {bound : ℕ} (f : ℕ) (P : ℕ → Type ℓ) → bound < f → ((k : ℕ) → bound < suc k → P (suc k)) → P f
above (suc k) P enough at_suc = at_suc k enough
above zero P enough at_suc = absurd (omega arith)

-- What is ready for a container is ready for its contents.
pub Ready-opened :
    (c : ℕ) {text rest : Bytes} {total n : ℕ} (o : BObject) (w : World)
    → Ready (c ∷ (text ++ b'e' ∷ [])) rest total n w
    → Ready text (b'e' ∷ rest) total n (opened c o w)
Ready-opened c o w r = record {
  sees = Sees-advance (c ∷ []) (rw append_assoc at r.sees);
  collected = Collected-advance (c ∷ []) w.parser r.collected;
  small = r.small;
}

-- What is ready for a value and more is ready for the value, and then for the rest.
pub Ready-append :
    (text more : Bytes) {rest : Bytes} (t m : ℕ) {n : ℕ} (w : World)
    → Ready (text ++ more) rest (t + m) n w
    → Ready text (more ++ rest) t n w
Ready-append text more t m w r = record {
  sees = rw append_assoc at r.sees;
  collected = r.collected;
  small = omega (arith, r.small);
}

pub Ready-first :
    (v : Value) (text : Bytes) {rest : Bytes} (m : ℕ) {n : ℕ} (w : World)
    → Ready (encode v ++ text) rest (total_length v + m) n w
    → Ready (encode v) (text ++ rest) (total_length v) n w
Ready-first v text m w r = Ready-append (encode v) text (total_length v) m w r

pub Ready-next :
    (v : Value) (text : Bytes) {rest : Bytes} (m : ℕ) {n : ℕ} (p : Ptr) (w : World)
    → Ready (encode v ++ text) rest (total_length v + m) n w
    → Ready text rest m (n + total_length v) (after_item v p w)
Ready-next v text {rest} m p w r = record {
  sees = scan-Sees v (text ++ rest) w.parser (rw append_assoc at r.sees);
  collected = scan-Collected v _ w.parser r.collected;
  small = omega (arith, r.small);
}

pub Open-after_item :
    {p : Ptr} (v : Value) (w : World)
    → Open b_list p w.memory
    → Open b_list p (after_item v p w).memory
Open-after_item v w here = Open-amend (Open-build v here) (pushed (next w.memory)) (λ o. refl)

pub length-encode_pos : (v : Value) → 0 < length (encode v)
length-encode_pos v = let (c, cs, e, h) = encode-head v in rw e (omega arith)

-- The loop over a list is enough for the list.
pub fill_list :
    (xs : Items) (rest : Bytes) (w : World)
    → Sees (encode (list xs) ++ rest) w.parser
    → ((k : ℕ)
        → 3 * length (encode_items xs) + 4 < k
        → list_loop k (next w.memory) (opened b'l' (of_kind b_list) w)
          ≡ ok (tt, after_items xs (next w.memory) (opened b'l' (of_kind b_list) w)))
    → (f : ℕ) → 3 * length (encode (list xs)) + 3 < f
    → parse_arbitrary f w ≡ ok (next w.memory, after (list xs) w)
unfolding encode scan build
fill_list xs rest w s inner zero h = absurd (omega arith)
fill_list xs rest w s inner (suc zero) h = absurd (omega arith)
fill_list xs rest w s inner (suc (suc k)) h =
    let w₂ = opened b'l' (of_kind b_list) w in
    let s' : Sees (b'l' ∷ (encode_items xs ++ b'e' ∷ rest)) w.parser = rw append_assoc at s in
    read_list k w (after_items xs (next w.memory) w₂)
      (Sees-scan_items xs (b'e' ∷ rest) w₂.parser (Sees-advance (b'l' ∷ []) s')) s'
      (inner k (omega (arith, length-append (encode_items xs) (b'e' ∷ []))))

pub fill_dict :
    (fs : Fields) (rest : Bytes) (w : World)
    → Sees (encode (dict fs) ++ rest) w.parser
    → ((k : ℕ)
        → 3 * length (encode_fields fs) + 4 < k
        → dictionary_loop k (next w.memory) (opened b'd' (of_kind b_dict) w)
          ≡ ok (tt, after_fields fs (next w.memory) (opened b'd' (of_kind b_dict) w)))
    → (f : ℕ) → 3 * length (encode (dict fs)) + 3 < f
    → parse_arbitrary f w ≡ ok (next w.memory, after (dict fs) w)
unfolding encode scan build
fill_dict fs rest w s inner zero h = absurd (omega arith)
fill_dict fs rest w s inner (suc zero) h = absurd (omega arith)
fill_dict fs rest w s inner (suc (suc k)) h =
    let w₂ = opened b'd' (of_kind b_dict) w in
    let s' : Sees (b'd' ∷ (encode_fields fs ++ b'e' ∷ rest)) w.parser = rw append_assoc at s in
    read_dictionary k w (after_fields fs (next w.memory) w₂)
      (Sees-scan_fields fs (b'e' ∷ rest) w₂.parser (Sees-advance (b'd' ∷ []) s')) s'
      (inner k (omega (arith, length-append (encode_fields fs) (b'e' ∷ []))))

-- The key of a field is read; what is ready for the field is ready for its value, and for the rest.
pub Ready-value :
    (k : Bytes) (v : Value) (fs : Fields) {rest : Bytes} {n : ℕ} (w : World)
    → Ready (encode_fields (field k v fs)) rest (total_fields (field k v fs)) n w
    → Ready (encode v ++ encode_fields fs) rest (total_length v + total_fields fs) n (after_key k w)
unfolding encode total_length
Ready-value k v fs w r = record {
  sees = Sees-mark k (Sees-advance (encode_string k) (rw append_assoc at r.sees));
  collected = Collected-mark k _ (Collected-advance (encode_string k) w.parser r.collected);
  small = omega (arith, r.small);
}

pub Ready-settled :
    (k : Bytes) (v : Value) (fs : Fields) {rest : Bytes} {n : ℕ} (p : Ptr) (w : World)
    → Ready (encode_fields (field k v fs)) rest (total_fields (field k v fs)) n w
    → Ready
        (encode_fields fs)
        rest
        (total_fields fs)
        (n + total_length v + own_length k v)
        (after_field k v p w)
unfolding total_length
Ready-settled k v fs {rest} p w r =
    let r' = Ready-value k v fs w r in
    let wk = after_key k w in
    record {
      sees =
          Sees-settle k v
            (scan-Sees v (encode_fields fs ++ rest) wk.parser (rw append_assoc at r'.sees));
      collected = Collected-settle k v _ _ (scan-Collected v _ wk.parser r'.collected);
      small = omega (arith, r.small);
    }

pub Open-after_field :
    {p : Ptr} (k : Bytes) (v : Value) (w : World)
    → Open b_dict p w.memory
    → Open b_dict p (after_field k v p w).memory
Open-after_field k v w here = Open-amend (Open-build v here) (added k (next w.memory)) (λ o. refl)
