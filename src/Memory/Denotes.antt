-- ===== src/Memory/Denotes.antt =====
-- The value that a pointer stands for, and that `build` makes the value it is given.
use btor.Base.{ℕ, ◌≤◌, ◌<◌, ◌≡◌, List, some, [], ◌∷◌, ◌∙◌, arith}
use btor.Base.{get_elem?-some_lt, get_elem?}
use btor.Bencode.{Value, Items, Fields, int, str, list, dict, no_items, item, no_fields, field}
use btor.Memory.{Memory, next}
use btor.Object.Dict.{Ptr, Dictionary, insert}
use btor.Object.{BObject, of_int, of_string, of_list, of_dict}

-- A live object at an address from `low` on.
abbrev pub Holds : Memory → ℕ → Ptr → BObject → Type 0
Holds m low p o = (low ≤ p) × (get_elem? m.heap p ≡ some (some o))

-- The dictionary after each key has been inserted with the pointer to its value.
abbrev pub dictionary_of : Fields → List Ptr → Dictionary → Dictionary
dictionary_of (field k v fs) (q ∷ qs) d = dictionary_of fs qs (insert k q d)
dictionary_of _ _ d = d

-- Pointers behind `q`.
abbrev pub AllAbove : Ptr → List Ptr → Type 0
AllAbove q [] = Unit {0}
AllAbove q (r ∷ rs) = (q < r) × AllAbove q rs

-- The objects below `p` make up the value, and all lie at `low` or above, the elements of a list in
-- the order of their addresses.
unfoldable mutual
  pub Denotes : Memory → ℕ → Ptr → Value → Type 0
  Denotes m low p (int i) = Holds m low p (of_int i)
  Denotes m low p (str b) = Holds m low p (of_string b)
  Denotes m low p (list xs) =
      (qs : List Ptr) × Holds m low p (of_list qs) × DenotesItems m low qs xs
  Denotes m low p (dict fs) =
      (qs : List Ptr) × Holds m low p (of_dict (dictionary_of fs qs [])) × DenotesFields m low qs fs

  pub DenotesItems : Memory → ℕ → List Ptr → Items → Type 0
  DenotesItems m low [] no_items = Unit {0}
  DenotesItems m low (q ∷ qs) no_items = ⊥
  DenotesItems m low [] (item v xs) = ⊥
  DenotesItems m low (q ∷ qs) (item v xs) =
      Denotes m low q v × DenotesItems m low qs xs × AllAbove q qs

  pub DenotesFields : Memory → ℕ → List Ptr → Fields → Type 0
  DenotesFields m low [] no_fields = Unit {0}
  DenotesFields m low (q ∷ qs) no_fields = ⊥
  DenotesFields m low [] (field k v fs) = ⊥
  DenotesFields m low (q ∷ qs) (field k v fs) = Denotes m low q v × DenotesFields m low qs fs

-- `m'` has the cells of `m` from `low` on.
abbrev pub Keeps : Memory → Memory → ℕ → Type 0
Keeps m m' low = (i : Ptr) → low ≤ i → i < next m → get_elem? m'.heap i ≡ get_elem? m.heap i

module _ (m m' : Memory) (low low' : ℕ) (le : low' ≤ low) (keep : Keeps m m' low) where
  Holds-keep : (p : Ptr) (o : BObject) → Holds m low p o → Holds m' low' p o
  Holds-keep p o h = (omega (arith, h.0), keep p h.0 (get_elem?-some_lt m.heap p h.1) ∙ h.1)

  mutual
    unfolding Denotes

    pub Denotes-keep : (v : Value) (p : Ptr) → Denotes m low p v → Denotes m' low' p v
    Denotes-keep (int i) p h = Holds-keep p (of_int i) h
    Denotes-keep (str b) p h = Holds-keep p (of_string b) h
    Denotes-keep (list xs) p h = (h.0, Holds-keep p _ h.1, DenotesItems-keep xs h.0 h.2)
    Denotes-keep (dict fs) p h = (h.0, Holds-keep p _ h.1, DenotesFields-keep fs h.0 h.2)

    pub DenotesItems-keep :
        (xs : Items) (qs : List Ptr) → DenotesItems m low qs xs → DenotesItems m' low' qs xs
    DenotesItems-keep no_items [] h = tt
    DenotesItems-keep no_items (q ∷ qs) h = h
    DenotesItems-keep (item v xs) [] h = h
    DenotesItems-keep (item v xs) (q ∷ qs) h =
        (Denotes-keep v q h.0, DenotesItems-keep xs qs h.1, h.2)

    pub DenotesFields-keep :
        (fs : Fields) (qs : List Ptr) → DenotesFields m low qs fs → DenotesFields m' low' qs fs
    DenotesFields-keep no_fields [] h = tt
    DenotesFields-keep no_fields (q ∷ qs) h = h
    DenotesFields-keep (field k v fs) [] h = h
    DenotesFields-keep (field k v fs) (q ∷ qs) h =
        (Denotes-keep v q h.0, DenotesFields-keep fs qs h.1)

module _ (m : Memory) (low : ℕ) where
  pub Denotes-Holds : (v : Value) (p : Ptr) → Denotes m low p v → (o : BObject) × Holds m low p o
  unfolding Denotes
  Denotes-Holds (int i) p h = (of_int i, h)
  Denotes-Holds (str b) p h = (of_string b, h)
  Denotes-Holds (list xs) p h = (of_list h.0, h.1)
  Denotes-Holds (dict fs) p h = (of_dict (dictionary_of fs h.0 []), h.1)

  pub DenotesItems-AllAbove :
      (q : Ptr) (xs : Items) (qs : List Ptr) → q < low → DenotesItems m low qs xs → AllAbove q qs
  unfolding Denotes
  DenotesItems-AllAbove q no_items [] lt h = tt
  DenotesItems-AllAbove q no_items (r ∷ qs) lt h = absurd h
  DenotesItems-AllAbove q (item v xs) [] lt h = tt
  DenotesItems-AllAbove q (item v xs) (r ∷ qs) lt h =
      let (_, (le, _)) = Denotes-Holds v r h.0 in
      (omega arith, DenotesItems-AllAbove q xs qs lt h.1)
