-- ===== src/Memory/Lookup.antt =====
-- What `getByKey` finds in a dictionary that the parser made: the first field under the key.
use btor.Base.{
  ℕ, ◌≡◌, refl, Bool, true, false, Option, none, some, List, [], ◌∷◌, ◌∙◌, sym, inl, inr,
}
use btor.Base.{Bytes, bytes_eq, if◌then◌else◌, Bool-cases}
use btor.Base.Outcome.{Outcome, ok, bind}
use btor.Bencode.{Value, Items, Fields, int, str, list, dict, no_fields, field}
use btor.Memory.Denotes.{Denotes, DenotesItems, DenotesFields, Holds, dictionary_of}
use btor.Memory.{Memory, deref}
use btor.Object.Dict.{Ptr, Dictionary, insert, find}
use btor.Object.Laws.{check_if_has_key-of_dict}
use btor.Object.Sorted.{IsSorted, or_else, or_else-none, insert-IsSorted, find-insert}
use btor.Object.{
  BObject, Kind, of_int, of_string, of_list, of_dict, get_by_key, check_if_has_key, get_int,
  get_string, get_list, get_type, b_string, b_list,
}
use btor.Base.Int.{ℤ}

-- `p->m()` on the objects as they are.
abbrev pub read {ℓ} : {A : Type ℓ} → Ptr → (BObject → Outcome A) → Memory → Outcome A
read p f m = bind (deref p m) f

-- The first value under a key.
unfoldable pub field_of : Bytes → Fields → Option Value
field_of k no_fields = none
field_of k (field j v fs) = if bytes_eq j k then some v else field_of k fs

-- `getType` on a pointer.
abbrev pub kind_of : BObject → Outcome Kind
kind_of o = ok (get_type o)

pointer_of : Bytes → Fields → List Ptr → Option Ptr
pointer_of k (field j v fs) (q ∷ qs) = if bytes_eq j k then some q else pointer_of k fs qs
pointer_of k _ _ = none

or_else_assoc : (a b c : Option Ptr) → or_else (or_else a b) c ≡ or_else a (or_else b c)
or_else_assoc none b c = refl
or_else_assoc (some p) b c = refl

or_else_if :
    (b : Bool) (q : Ptr) (r : Option Ptr)
    → or_else (if b then some q else none) r ≡ (if b then some q else r)
or_else_if true q r = refl
or_else_if false q r = refl

find-dictionary_of :
    (k : Bytes) (fs : Fields) (qs : List Ptr) (d : Dictionary)
    → IsSorted d
    → find k (dictionary_of fs qs d) ≡ or_else (find k d) (pointer_of k fs qs)
unfolding pointer_of
find-dictionary_of k no_fields [] d h = sym (or_else-none (find k d))
find-dictionary_of k no_fields (q ∷ qs) d h = sym (or_else-none (find k d))
find-dictionary_of k (field j v fs) [] d h = sym (or_else-none (find k d))
find-dictionary_of k (field j v fs) (q ∷ qs) d h =
    find-dictionary_of k fs qs (insert j q d) (insert-IsSorted j q d h)
    ∙ rw (find-insert k j q d h, or_else_assoc, or_else_if)

-- A field is found at a pointer to objects that make up its value; another key is not found.
module _ (m : Memory) (low : ℕ) (k : Bytes) where
  abbrev pub Finds : Option Value → Option Ptr → Type 0
  Finds none r = r ≡ none
  Finds (some v) r = (p : Ptr) × (r ≡ some p) × Denotes m low p v

  pointer_of-Denotes :
      (fs : Fields) (qs : List Ptr)
      → DenotesFields m low qs fs
      → Finds (field_of k fs) (pointer_of k fs qs)
  unfolding pointer_of field_of Denotes
  pointer_of-Denotes no_fields [] h = refl
  pointer_of-Denotes no_fields (q ∷ qs) h = absurd h
  pointer_of-Denotes (field j v fs) [] h = absurd h
  pointer_of-Denotes (field j v fs) (q ∷ qs) h = elim (Bool-cases (bytes_eq j k)) [
    | inl e ↦ rw e (q, refl, h.0)
    | inr e ↦ rw e (pointer_of-Denotes fs qs h.1)
  ]

-- The object at a pointer.
module _ (m : Memory) (low : ℕ) (p : Ptr) where
  pub read-Holds {ℓ} :
      {A : Type ℓ} (f : BObject → Outcome A) (o : BObject) → Holds m low p o → read p f m ≡ f o
  unfolding deref
  read-Holds f o h = rw h.1

  pub read-int : (i : ℤ) → Denotes m low p (int i) → read p get_int m ≡ ok i
  unfolding Denotes get_int
  read-int i h = read-Holds get_int (of_int i) h

  pub read-string :
      (b : Bytes)
      → Denotes m low p (str b)
      → (read p get_string m ≡ ok b) × (read p kind_of m ≡ ok b_string)
  unfolding Denotes get_string get_type
  read-string b h = (read-Holds get_string (of_string b) h, read-Holds kind_of (of_string b) h)

  pub read-list :
      (xs : Items)
      → Denotes m low p (list xs)
      → (qs : List Ptr) × (read p get_list m ≡ ok qs)
        × (read p kind_of m ≡ ok b_list)
        × DenotesItems m low qs xs
  unfolding Denotes get_list get_type
  read-list xs h =
      (h.0, read-Holds get_list (of_list h.0) h.1, read-Holds kind_of (of_list h.0) h.1, h.2)

  pub entries-Denotes :
      (fs : Fields) (k : Bytes)
      → Denotes m low p (dict fs)
      → (d : Dictionary) × Holds m low p (of_dict d) × Finds m low k (field_of k fs) (find k d)
  unfolding Denotes find pointer_of
  entries-Denotes fs k h = (
    dictionary_of fs h.0 [],
    h.1,
    rw (find-dictionary_of k fs h.0 [] tt) (pointer_of-Denotes m low k fs h.0 h.2),
  )

  pub read-field :
      (fs : Fields) (k : Bytes) (v : Value)
      → Denotes m low p (dict fs)
      → field_of k fs ≡ some v
      → (q : Ptr) × (read p (get_by_key k) m ≡ ok q) × Denotes m low q v
  unfolding get_by_key
  read-field fs k v h e =
      let (d, here, finds) = entries-Denotes fs k h in
      let (q, at_q, made) : (q : Ptr) × (find k d ≡ some q) × Denotes m low q v = rw e at finds in
      (q, read-Holds (get_by_key k) (of_dict d) here ∙ rw at_q, made)

  pub read-has_key :
      (fs : Fields) (k : Bytes) (v : Value)
      → Denotes m low p (dict fs)
      → field_of k fs ≡ some v
      → read p (check_if_has_key k) m ≡ ok true
  read-has_key fs k v h e =
      let (d, here, finds) = entries-Denotes fs k h in
      let (q, at_q, made) : (q : Ptr) × (find k d ≡ some q) × Denotes m low q v = rw e at finds in
      read-Holds (check_if_has_key k) (of_dict d) here ∙ check_if_has_key-of_dict k d ∙ rw at_q

  pub read-no_key :
      (fs : Fields) (k : Bytes)
      → Denotes m low p (dict fs)
      → field_of k fs ≡ none
      → read p (check_if_has_key k) m ≡ ok false
  read-no_key fs k h e =
      let (d, here, finds) = entries-Denotes fs k h in
      let missing : find k d ≡ none = rw e at finds in
      read-Holds (check_if_has_key k) (of_dict d) here ∙ check_if_has_key-of_dict k d ∙ rw missing
