-- ===== src/Print/Shows.antt =====
-- `operator<<` against an independent description of the text of a value.
use Prim.Native.Nat.{Ordering}
use btor.Base.{
  ℕ, zero, suc, ◌+◌, ◌≤◌, ◌≡◌, refl, Bool, true, false, List, [], ◌∷◌, ◌++◌, ◌∙◌, inl, inr, some,
  arith,
}
use btor.Base.{Bytes, codes, bytes_compare, get_elem?}
use btor.Base.Decimal.{decimal_int}
use btor.Base.Order.{Ordering-cases}
use btor.Base.Outcome.{Outcome, ok}
use btor.Base.Int.{ℤ}
use btor.Bencode.{
  Value, Items, Fields, int, str, list, dict, no_items, item, no_fields, field, encode,
}
use btor.Cursor.{World}
use btor.Memory.Denotes.{Denotes, DenotesItems, DenotesFields, dictionary_of}
use btor.Memory.{Memory, next, deref}
use btor.Object.Dict.{Ptr, Dictionary, insert}
use btor.Object.{
  BObject, of_int, of_string, of_list, of_dict, get_int, get_string, get_list, get_dict,
}
use btor.Parser.Results.{Prints, parse_bencoded_string-encode}
use btor.Parser.{parse_bencoded_string}
use btor.Print.{separator, quoted, print_items, print_entries, print_as, print_object}

-- Entries in the order of their keys, of which the first under a key stays.
abbrev pub Entries : Type 0
Entries = List (Bytes × Bytes)

unfoldable pub enter : Bytes → Bytes → Entries → Entries
enter key text [] = (key, text) ∷ []
enter key text ((k, t) ∷ rest) = elim (bytes_compare key k) [
  | Ordering.lt ↦ (key, text) ∷ (k, t) ∷ rest
  | Ordering.eq ↦ (k, t) ∷ rest
  | Ordering.gt ↦ (k, t) ∷ enter key text rest
]

unfoldable pub join_entries : Bool → Entries → Bytes
join_entries first [] = []
join_entries first ((key, text) ∷ rest) =
    separator first ++ (quoted key ++ (codes ": " ++ (text ++ join_entries false rest)))

-- The text of a value: `[1, "a"]`, `{"k": 2}`.
unfoldable mutual
  pub show : Value → Bytes
  show (int i) = decimal_int i
  show (str b) = quoted b
  show (list xs) = b'[' ∷ (show_items true xs ++ b']' ∷ [])
  show (dict fs) = b'{' ∷ (join_entries true (show_fields fs []) ++ b'}' ∷ [])

  pub show_items : Bool → Items → Bytes
  show_items first no_items = []
  show_items first (item v xs) = separator first ++ (show v ++ show_items false xs)

  pub show_fields : Fields → Entries → Entries
  show_fields no_fields entries = entries
  show_fields (field k v fs) entries = show_fields fs (enter k (show v) entries)

-- The number of objects in a value, which bounds its depth.
unfoldable mutual
  pub size : Value → ℕ
  size (int i) = 1
  size (str b) = 1
  size (list xs) = suc (size_items xs)
  size (dict fs) = suc (size_fields fs)

  pub size_items : Items → ℕ
  size_items no_items = 0
  size_items (item v xs) = size v + size_items xs

  pub size_fields : Fields → ℕ
  size_fields no_fields = 0
  size_fields (field k v fs) = size v + size_fields fs

-- The entries hold the texts of the objects that the dictionary points to.
Texts : (Ptr → Outcome Bytes) → Dictionary → Entries → Type 0
Texts print [] [] = Unit {0}
Texts print [] (x ∷ ts) = ⊥
Texts print (x ∷ d) [] = ⊥
Texts print ((k, q) ∷ d) ((k', t) ∷ ts) = (k ≡ k') × (print q ≡ ok t) × Texts print d ts

module _ (print : Ptr → Outcome Bytes) where
  Texts-insert :
      (k : Bytes) (q : Ptr) (t : Bytes) (d : Dictionary) (ts : Entries)
      → print q ≡ ok t
      → Texts print d ts
      → Texts print (insert k q d) (enter k t ts)
  unfolding Texts insert enter
  Texts-insert k q t [] [] e h = (refl, e, tt)
  Texts-insert k q t [] (x ∷ ts) e h = absurd h
  Texts-insert k q t (x ∷ d) [] e h = absurd h
  Texts-insert k q t ((j, r) ∷ d) ((j', u) ∷ ts) e h = elim (Ordering-cases (bytes_compare k j)) [
    | inl c ↦ rw (← h.0, c, insert, enter) (refl, e, h)
    | inr (inl c) ↦ rw (← h.0, c, insert, enter) h
    | inr (inr c) ↦ rw (← h.0, c, insert, enter) (h.0, h.1, Texts-insert k q t d ts e h.2)
  ]

  print_entries-Texts :
      (first : Bool) (d : Dictionary) (ts : Entries)
      → Texts print d ts
      → print_entries print first d ≡ ok (join_entries first ts)
  unfolding Texts print_entries join_entries
  print_entries-Texts first [] [] h = refl
  print_entries-Texts first [] (x ∷ ts) h = absurd h
  print_entries-Texts first (x ∷ d) [] h = absurd h
  print_entries-Texts first ((k, q) ∷ d) ((k', t) ∷ ts) h =
      rw (h.1, print_entries-Texts false d ts h.2, h.0)

print_object-holds :
    (f : ℕ) (m : Memory) (p : Ptr) (o : BObject)
    → get_elem? m.heap p ≡ some (some o)
    → print_object (suc f) m p ≡ print_as o.kind (print_object f m) o
unfolding print_object deref
print_object-holds f m p o e = rw e

print_of_list :
    (print : Ptr → Outcome Bytes) (qs : List Ptr) (s : Bytes)
    → print_items print true qs ≡ ok s
    → print_as (of_list qs).kind print (of_list qs) ≡ ok (b'[' ∷ (s ++ b']' ∷ []))
unfolding print_as get_list
print_of_list print qs s e = rw e

print_of_dict :
    (print : Ptr → Outcome Bytes) (d : Dictionary) (s : Bytes)
    → print_entries print true d ≡ ok s
    → print_as (of_dict d).kind print (of_dict d) ≡ ok (b'{' ∷ (s ++ b'}' ∷ []))
unfolding print_as get_dict
print_of_dict print d s e = rw e

print_of_int :
    (print : Ptr → Outcome Bytes) (i : ℤ)
    → print_as (of_int i).kind print (of_int i) ≡ ok (decimal_int i)
unfolding print_as get_int
print_of_int print i = refl

print_of_string :
    (print : Ptr → Outcome Bytes) (b : Bytes)
    → print_as (of_string b).kind print (of_string b) ≡ ok (quoted b)
unfolding print_as get_string
print_of_string print b = refl

module _ (m : Memory) (low : ℕ) where
  mutual
    unfolding Denotes show size print_items Texts

    print_object-Denotes :
        (v : Value) (f : ℕ) (p : Ptr)
        → size v ≤ f
        → Denotes m low p v
        → print_object f m p ≡ ok (show v)
    print_object-Denotes (int i) zero p le h = absurd (omega arith)
    print_object-Denotes (int i) (suc f) p le h =
        print_object-holds f m p _ h.1 ∙ print_of_int (print_object f m) i
    print_object-Denotes (str b) zero p le h = absurd (omega arith)
    print_object-Denotes (str b) (suc f) p le h =
        print_object-holds f m p _ h.1 ∙ print_of_string (print_object f m) b
    print_object-Denotes (list xs) zero p le h = absurd (omega arith)
    print_object-Denotes (list xs) (suc f) p le h =
        print_object-holds f m p _ h.1.1
        ∙ print_of_list (print_object f m) h.0 _
            (print_items-Denotes xs f true h.0 (omega arith) h.2)
    print_object-Denotes (dict fs) zero p le h = absurd (omega arith)
    print_object-Denotes (dict fs) (suc f) p le h =
        print_object-holds f m p _ h.1.1
        ∙ print_of_dict (print_object f m) _ _ (
            print_entries-Texts (print_object f m) true _ _
              (Texts-Denotes fs f h.0 [] [] (omega arith) h.2 tt))

    print_items-Denotes :
        (xs : Items) (f : ℕ) (first : Bool) (qs : List Ptr)
        → size_items xs ≤ f
        → DenotesItems m low qs xs
        → print_items (print_object f m) first qs ≡ ok (show_items first xs)
    print_items-Denotes no_items f first [] le h = refl
    print_items-Denotes no_items f first (q ∷ qs) le h = absurd h
    print_items-Denotes (item v xs) f first [] le h = absurd h
    print_items-Denotes (item v xs) f first (q ∷ qs) le h = rw (
      print_object-Denotes v f q (omega arith) h.0,
      print_items-Denotes xs f false qs (omega arith) h.1,
    )

    Texts-Denotes :
        (fs : Fields) (f : ℕ) (qs : List Ptr) (d : Dictionary) (ts : Entries)
        → size_fields fs ≤ f
        → DenotesFields m low qs fs
        → Texts (print_object f m) d ts
        → Texts (print_object f m) (dictionary_of fs qs d) (show_fields fs ts)
    Texts-Denotes no_fields f [] d ts le h t = t
    Texts-Denotes no_fields f (q ∷ qs) d ts le h t = absurd h
    Texts-Denotes (field k v fs) f [] d ts le h t = absurd h
    Texts-Denotes (field k v fs) f (q ∷ qs) d ts le h t =
        Texts-Denotes fs f qs (insert k q d) (enter k (show v) ts) (omega arith) h.1 (
          Texts-insert (print_object f m) k q (show v) d ts
            (print_object-Denotes v f q (omega arith) h.0) t)

-- When it may go as deep as there are objects in the value, writing what the parser makes of the
-- print of a readable value gives the text of the value: the elements of a list in their order, the
-- entries of a dictionary in the order of their keys, where the first entry under a key counts.
pub print_object-parse-encode :
    (v : Value) (rest : Bytes) (n : ℕ) (w : World) (f : ℕ)
    → Prints v rest n w
    → size v ≤ f
    → (p : Ptr) × (w' : World) × (parse_bencoded_string (encode v ++ rest) w ≡ ok (p, w'))
      × (print_object f w'.memory p ≡ ok (show v))
print_object-parse-encode v rest n w f h le =
    let (w', runs, made, _, _) = parse_bencoded_string-encode v rest n w h in
    (
      next w.memory,
      w',
      runs,
      print_object-Denotes w'.memory (next w.memory) v f (next w.memory) le made,
    )
