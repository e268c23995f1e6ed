-- ===== src/Object/Sorted.antt =====
-- The entries of a dictionary stay in strict order of their keys; a key keeps its first value.
use Prim.Native.Nat.{Ordering}
use btor.Base.{◌≡◌, refl, false, Option, none, some, [], ◌∷◌, inl, inr}
use btor.Base.{Bytes, bytes_eq, bytes_eq→eq, bytes_compare, if◌then◌else◌, Bool-cases}
use btor.Base.Order.{
  bytes_compare_trans, bytes_compare_flip, bytes_compare→eq, bytes_compare_lt-ne, Ordering-cases,
}
use btor.Object.Dict.{Ptr, Dictionary, insert, find}

abbrev pub AllAbove : Bytes → Dictionary → Type 0
AllAbove k [] = Unit {0}
AllAbove k ((j, v) ∷ d) = (bytes_compare k j ≡ Ordering.lt) × AllAbove k d

abbrev pub IsSorted : Dictionary → Type 0
IsSorted [] = Unit {0}
IsSorted ((k, v) ∷ d) = AllAbove k d × IsSorted d

-- the first value that there is
abbrev pub or_else : Option Ptr → Option Ptr → Option Ptr
or_else none o = o
or_else (some p) o = some p

-- the three branches of `insert` at an entry
module _ (k i : Bytes) (v w : Ptr) (d : Dictionary) where
  insert-lt : bytes_compare k i ≡ Ordering.lt → insert k v ((i, w) ∷ d) ≡ (k, v) ∷ (i, w) ∷ d
  unfolding insert
  insert-lt e = rw (e, insert)

  insert-eq : bytes_compare k i ≡ Ordering.eq → insert k v ((i, w) ∷ d) ≡ (i, w) ∷ d
  unfolding insert
  insert-eq e = rw (e, insert)

  insert-gt : bytes_compare k i ≡ Ordering.gt → insert k v ((i, w) ∷ d) ≡ (i, w) ∷ insert k v d
  unfolding insert
  insert-gt e = rw (e, insert)

pub or_else-none : (o : Option Ptr) → or_else o none ≡ o
or_else-none none = refl
or_else-none (some p) = refl

AllAbove-trans :
    (j k : Bytes) (d : Dictionary) → bytes_compare j k ≡ Ordering.lt → AllAbove k d → AllAbove j d
AllAbove-trans j k [] lt h = tt
AllAbove-trans j k ((i, v) ∷ d) lt h =
    (bytes_compare_trans j k i lt h.0, AllAbove-trans j k d lt h.1)

AllAbove-insert :
    (j k : Bytes) (v : Ptr) (d : Dictionary)
    → bytes_compare j k ≡ Ordering.lt
    → AllAbove j d
    → AllAbove j (insert k v d)
unfolding insert
AllAbove-insert j k v [] lt h = (lt, tt)
AllAbove-insert j k v ((i, w) ∷ d) lt h = elim (Ordering-cases (bytes_compare k i)) [
  | inl e ↦ rw (insert-lt k i v w d e) (lt, h)
  | inr (inl e) ↦ rw (insert-eq k i v w d e) h
  | inr (inr e) ↦ rw (insert-gt k i v w d e) (h.0, AllAbove-insert j k v d lt h.1)
]

-- `insert` keeps the entries in strict order of their keys.
pub insert-IsSorted : (k : Bytes) (v : Ptr) (d : Dictionary) → IsSorted d → IsSorted (insert k v d)
unfolding insert
insert-IsSorted k v [] h = (tt, tt)
insert-IsSorted k v ((i, w) ∷ d) h = elim (Ordering-cases (bytes_compare k i)) [
  | inl e ↦ rw (insert-lt k i v w d e) ((e, AllAbove-trans k i d e h.0), h)
  | inr (inl e) ↦ rw (insert-eq k i v w d e) h
  | inr (inr e) ↦
      rw (insert-gt k i v w d e)
        (AllAbove-insert i k v d (bytes_compare_flip k i e) h.0, insert-IsSorted k v d h.1)
]

pub find-AllAbove : (k : Bytes) (d : Dictionary) → AllAbove k d → find k d ≡ none
unfolding find
find-AllAbove k [] h = refl
find-AllAbove k ((i, w) ∷ d) h = rw (bytes_compare_lt-ne k i h.0) (find-AllAbove k d h.1)

find-front :
    (j k : Bytes) (v : Ptr) (d : Dictionary)
    → find k d ≡ none
    → find j ((k, v) ∷ d) ≡ or_else (find j d) (if bytes_eq k j then some v else none)
find-front j k v d h = elim (Bool-cases (bytes_eq k j)) [
  | inl e ↦
      let none_at_j : find j d ≡ none = rw (← bytes_eq→eq k j e) h in
      rw none_at_j (unfold find in rw e)
  | inr e ↦ rw (e, or_else-none) (unfold find in rw e)
]

find-there :
    (j k i : Bytes) (v w : Ptr) (d : Dictionary)
    → k ≡ i
    → find j ((i, w) ∷ d) ≡ or_else (find j ((i, w) ∷ d)) (if bytes_eq k j then some v else none)
unfolding find
find-there j k i v w d same = elim (Bool-cases (bytes_eq i j)) [
  | inl e ↦ rw e
  | inr e ↦ let ne : bytes_eq k j ≡ false = rw same e in rw (e, ne, or_else-none)
]

find-behind :
    (j k i : Bytes) (v w : Ptr) (d : Dictionary)
    → find j (insert k v d) ≡ or_else (find j d) (if bytes_eq k j then some v else none)
    → find j ((i, w) ∷ insert k v d)
      ≡ or_else (find j ((i, w) ∷ d)) (if bytes_eq k j then some v else none)
unfolding find
find-behind j k i v w d ih = elim (Bool-cases (bytes_eq i j)) [ inl e ↦ rw e | inr e ↦ rw e ih ]

-- What is found after an insertion: what was found before, and else the new value under its key.
pub find-insert :
    (j k : Bytes) (v : Ptr) (d : Dictionary)
    → IsSorted d
    → find j (insert k v d) ≡ or_else (find j d) (if bytes_eq k j then some v else none)
unfolding insert find
find-insert j k v [] h = refl
find-insert j k v ((i, w) ∷ d) h = elim (Ordering-cases (bytes_compare k i)) [
  | inl e ↦
      rw (insert-lt k i v w d e) (
        find-front j k v ((i, w) ∷ d)
          (find-AllAbove k ((i, w) ∷ d) (e, AllAbove-trans k i d e h.0)))
  | inr (inl e) ↦ rw (insert-eq k i v w d e) (find-there j k i v w d (bytes_compare→eq k i e))
  | inr (inr e) ↦ rw (insert-gt k i v w d e) (find-behind j k i v w d (find-insert j k v d h.1))
]
