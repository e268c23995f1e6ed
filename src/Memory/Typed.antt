-- ===== src/Memory/Typed.antt =====
-- The pointers that the accessors of `BObject` (btor/bobject.cpp) lead to, and what these give there.
use btor.Base.{ℕ, zero, suc, ◌≡◌, sym, Option, none, some, List, [], ◌∷◌, ◌∙◌}
use btor.Base.{Bytes, get_elem?}
use btor.Base.Int.{ℤ}
use btor.Base.Outcome.{ok, raised, type_error}
use btor.Bencode.{Value, Items, int, str, list, dict, no_items, item}
use btor.Memory.Denotes.{Denotes, DenotesItems, dictionary_of}
use btor.Memory.Lookup.{read, kind_of, read-Holds, read-list, Finds, entries-Denotes, field_of}
use btor.Memory.{Memory}
use btor.Object.Dict.{Ptr, Dictionary, find}
use btor.Object.{
  BObject, Kind, b_integer, b_string, b_list, b_dict, get_int, get_string, get_list, get_dict,
  get_by_key, found, of_int, of_string, of_list, of_dict,
}

module _ (m : Memory) where
  -- The pointers that the accessors lead to.
  pub data Reaches : Ptr → Ptr → Type 0 where
    here : {p : Ptr} → Reaches p p
    element :
        {p q r : Ptr} (qs : List Ptr) (i : ℕ)
        → read p get_list m ≡ ok qs
        → get_elem? qs i ≡ some q
        → Reaches q r
        → Reaches p r
    entry : {p q r : Ptr} (k : Bytes) → read p (get_by_key k) m ≡ ok q → Reaches q r → Reaches p r

  -- The accessor for the type of the object gives its value, and every other one throws.
  pub data Typed (p : Ptr) : Kind → Type 0 where
    an_int :
        (i : ℤ)
        → read p get_int m ≡ ok i
        → read p get_string m ≡ raised type_error
        → read p get_list m ≡ raised type_error
        → read p get_dict m ≡ raised type_error
        → Typed p b_integer
    a_text :
        (b : Bytes)
        → read p get_int m ≡ raised type_error
        → read p get_string m ≡ ok b
        → read p get_list m ≡ raised type_error
        → read p get_dict m ≡ raised type_error
        → Typed p b_string
    some_list :
        (qs : List Ptr)
        → read p get_int m ≡ raised type_error
        → read p get_string m ≡ raised type_error
        → read p get_list m ≡ ok qs
        → read p get_dict m ≡ raised type_error
        → Typed p b_list
    some_dict :
        (d : Dictionary)
        → read p get_int m ≡ raised type_error
        → read p get_string m ≡ raised type_error
        → read p get_list m ≡ raised type_error
        → read p get_dict m ≡ ok d
        → Typed p b_dict

  abbrev pub HasType : Ptr → Type 0
  HasType p = (k : Kind) × (read p kind_of m ≡ ok k) × Typed p k

module _ (m : Memory) (low : ℕ) where
  Denotes-HasType : (p : Ptr) (v : Value) → Denotes m low p v → HasType m p
  unfolding Denotes get_int get_string get_list get_dict btor.Object.get_type
  Denotes-HasType p (int i) h =
      let o = of_int i in
      (
        b_integer,
        read-Holds m low p kind_of o h,
        an_int i (read-Holds m low p get_int o h) (read-Holds m low p get_string o h)
            (read-Holds m low p get_list o h) (read-Holds m low p get_dict o h),
      )
  Denotes-HasType p (str b) h =
      let o = of_string b in
      (
        b_string,
        read-Holds m low p kind_of o h,
        a_text b (read-Holds m low p get_int o h) (read-Holds m low p get_string o h)
            (read-Holds m low p get_list o h) (read-Holds m low p get_dict o h),
      )
  Denotes-HasType p (list xs) (qs, h, all) =
      let o = of_list qs in
      (
        b_list,
        read-Holds m low p kind_of o h,
        some_list qs (read-Holds m low p get_int o h) (read-Holds m low p get_string o h)
            (read-Holds m low p get_list o h) (read-Holds m low p get_dict o h),
      )
  Denotes-HasType p (dict fs) (qs, h, all) =
      let o = of_dict (dictionary_of fs qs []) in
      (
        b_dict,
        read-Holds m low p kind_of o h,
        some_dict (dictionary_of fs qs []) (read-Holds m low p get_int o h)
            (read-Holds m low p get_string o h) (read-Holds m low p get_list o h)
            (read-Holds m low p get_dict o h),
      )

  item-Denotes :
      (xs : Items) (qs : List Ptr) (i : ℕ) {q : Ptr}
      → DenotesItems m low qs xs
      → get_elem? qs i ≡ some q
      → (v : Value) × Denotes m low q v
  unfolding Denotes
  item-Denotes no_items [] i h e = absurd (cc e)
  item-Denotes no_items (p ∷ ps) i h e = absurd h
  item-Denotes (item v xs) [] i h e = absurd h
  item-Denotes (item v xs) (p ∷ ps) zero {q} h e = let same : p ≡ q = cc e in (v, rw same at h.0)
  item-Denotes (item v xs) (p ∷ ps) (suc i) h e = item-Denotes xs ps i h.1 e

  element-Denotes :
      (p : Ptr) (v : Value) (qs : List Ptr) (i : ℕ) {q : Ptr}
      → Denotes m low p v
      → read p get_list m ≡ ok qs
      → get_elem? qs i ≡ some q
      → (u : Value) × Denotes m low q u
  unfolding Denotes get_list
  element-Denotes p (int n) qs i h e at_i =
      absurd (cc (sym e ∙ read-Holds m low p get_list (of_int n) h))
  element-Denotes p (str b) qs i h e at_i =
      absurd (cc (sym e ∙ read-Holds m low p get_list (of_string b) h))
  element-Denotes p (dict fs) qs i h e at_i =
      absurd (cc (sym e ∙ read-Holds m low p get_list (of_dict (dictionary_of fs h.0 [])) h.1))
  element-Denotes p (list xs) qs i h e at_i =
      let (qs', e', _, all) = read-list m low p xs h in
      let same : qs' ≡ qs = cc (sym e' ∙ e) in item-Denotes xs qs i (rw same at all) at_i

  found-Denotes :
      (k : Bytes) (field : Option Value) (r : Option Ptr) (q : Ptr)
      → Finds m low k field r
      → found r ≡ ok q
      → (u : Value) × Denotes m low q u
  unfolding found
  found-Denotes k none r q h e = absurd (cc (rw h at e))
  found-Denotes k (some u) r q (p, at_p, h) e =
      let same : p ≡ q = cc (rw at_p at e) in (u, rw same at h)

  entry-Denotes :
      (p : Ptr) (v : Value) (k : Bytes) {q : Ptr}
      → Denotes m low p v
      → read p (get_by_key k) m ≡ ok q
      → (u : Value) × Denotes m low q u
  unfolding Denotes get_by_key
  entry-Denotes p (int n) k h e =
      absurd (cc (sym e ∙ read-Holds m low p (get_by_key k) (of_int n) h))
  entry-Denotes p (str b) k h e =
      absurd (cc (sym e ∙ read-Holds m low p (get_by_key k) (of_string b) h))
  entry-Denotes p (list xs) k h e =
      absurd (cc (sym e ∙ read-Holds m low p (get_by_key k) (of_list h.0) h.1))
  entry-Denotes p (dict fs) k {q} h e =
      let (d, held, finds) = entries-Denotes m low p fs k h in
      found-Denotes k (field_of k fs) (find k d) q finds
        (sym (read-Holds m low p (get_by_key k) (of_dict d) held) ∙ e)

  reached-Denotes :
      (p r : Ptr) (v : Value) → Denotes m low p v → Reaches m p r → (u : Value) × Denotes m low r u
  reached-Denotes p r v h here = (v, h)
  reached-Denotes p r v h (element {q} qs i e at_i more) =
      let (u, h') = element-Denotes p v qs i h e at_i in reached-Denotes q r u h' more
  reached-Denotes p r v h (entry {q} k e more) =
      let (u, h') = entry-Denotes p v k h e in reached-Denotes q r u h' more

  pub Reaches-HasType : (p r : Ptr) (v : Value) → Denotes m low p v → Reaches m p r → HasType m r
  Reaches-HasType p r v h reaches =
      let (u, h') = reached-Denotes p r v h reaches in Denotes-HasType r u h'
