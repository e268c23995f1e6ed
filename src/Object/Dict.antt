-- ===== src/Object/Dict.antt =====
-- `std::map<std::string, BObject*>` as the sequence of its entries in the order of the keys.
use Prim.Native.Nat.{Ordering}
use btor.Base.{ℕ, Option, none, some, List, [], ◌∷◌}
use btor.Base.{Bytes, bytes_eq, bytes_compare, length, if◌then◌else◌}

-- `BObject*`
abbrev pub Ptr : Type 0
Ptr = ℕ

abbrev pub Dictionary : Type 0
Dictionary = List (Bytes × Ptr)

-- `std::map::insert`: a key that is there keeps its value.
unfoldable pub insert : Bytes → Ptr → Dictionary → Dictionary
insert key val [] = (key, val) ∷ []
insert key val ((k, v) ∷ rest) = elim (bytes_compare key k) [
  | Ordering.lt ↦ (key, val) ∷ (k, v) ∷ rest
  | Ordering.eq ↦ (k, v) ∷ rest
  | Ordering.gt ↦ (k, v) ∷ insert key val rest
]

-- The loop of `getByKey` over the entries.
unfoldable pub find : Bytes → Dictionary → Option Ptr
find search_key [] = none
find search_key ((key, val) ∷ rest) =
    if bytes_eq key search_key then some val else find search_key rest

abbrev pub dict_size : Dictionary → ℕ
dict_size = length
