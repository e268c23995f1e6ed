-- ===== src/Object/Laws.antt =====
-- `addKeyValue`, `checkIfHasKey` and `getByKey` together.
use btor.Base.{◌≡◌, ◌⊎◌, refl, Bool, true, false, Option, none, some, [], ◌∷◌, inl, inr}
use btor.Base.{Bytes, bytes_eq, if◌then◌else◌, Bool-cases}
use btor.Base.Outcome.{ok, raised, type_error, key_error}
use btor.Object.Dict.{Ptr, Dictionary, insert, find}
use btor.Object.Sorted.{IsSorted, or_else, insert-IsSorted, find-insert}
use btor.Object.{
  b_dict, BObject, of_dict, is_kind, add_key_value, has_key, check_if_has_key, found, get_by_key,
}

-- What the two loops over the entries say of a key.
abbrev pub is_some : Option Ptr → Bool
is_some none = false
is_some (some p) = true

has_key-find : (k : Bytes) (d : Dictionary) → has_key k d ≡ is_some (find k d)
unfolding has_key find
has_key-find k [] = refl
has_key-find k ((j, v) ∷ d) = elim (Bool-cases (bytes_eq j k)) [
  | inl e ↦ rw e
  | inr e ↦ rw e (has_key-find k d)
]

pub check_if_has_key-of_dict :
    (k : Bytes) (d : Dictionary) → check_if_has_key k (of_dict d) ≡ ok (is_some (find k d))
unfolding check_if_has_key
check_if_has_key-of_dict k d = rw (has_key-find k d)

-- `checkIfHasKey` says whether `getByKey` returns or throws a BDictKeyException; both throw a
-- BTypeException on an object that is no dictionary.
pub check_if_has_key-get_by_key :
    (k : Bytes) (o : BObject)
    → ((check_if_has_key k o ≡ ok true) × ((p : Ptr) × (get_by_key k o ≡ ok p)))
      ⊎ ((check_if_has_key k o ≡ ok false) × (get_by_key k o ≡ raised key_error))
      ⊎ ((check_if_has_key k o ≡ raised type_error) × (get_by_key k o ≡ raised type_error))
unfolding check_if_has_key get_by_key
check_if_has_key-get_by_key k o = elim (Bool-cases (is_kind o.kind b_dict)) [
  | inr e ↦ rw e (inr (inr (refl, refl)))
  | inl e ↦ rw (e, has_key-find) (by_result (find k o.dict_val))
]
  where
    by_result :
        (r : Option Ptr)
        → ((ok (is_some r) ≡ ok true) × ((p : Ptr) × (found r ≡ ok p)))
          ⊎ ((ok (is_some r) ≡ ok false) × (found r ≡ raised key_error))
          ⊎ ((ok (is_some r) ≡ raised type_error) × (found r ≡ raised type_error))
    by_result none = inr (inl (refl, refl))
    by_result (some p) = inl (refl, (p, refl))

found-or_else :
    (r : Option Ptr) (b : Bool) (p : Ptr)
    → found (or_else r (if b then some p else none))
      ≡ (if is_some r then found r else if b then ok p else raised key_error)
unfolding found
found-or_else none true p = refl
found-or_else none false p = refl
found-or_else (some q) b p = refl

-- In a dictionary whose entries are in strict order of their keys: after a value has been added
-- under a key, a key that was there is looked up as before, the new
-- key gives the new value if it was not there, and any other key is still missing; the entries
-- stay in strict order of their keys.
pub get_by_key-add_key_value :
    (j k : Bytes) (p : Ptr) (o : BObject) (b : Bool)
    → IsSorted o.dict_val
    → check_if_has_key j o ≡ ok b
    → (o' : BObject) × (add_key_value k p o ≡ ok o')
      × IsSorted o'.dict_val
      × (get_by_key j o'
          ≡ (if b then get_by_key j o else if bytes_eq k j then ok p else raised key_error))
unfolding check_if_has_key get_by_key add_key_value
get_by_key-add_key_value j k p o b sorted h = elim (Bool-cases (is_kind o.kind b_dict)) [
  | inl e ↦
      let was : is_some (find j o.dict_val) ≡ b = cc (has_key-find j o.dict_val, rw e at h) in
      (
        record o { dict_val = insert k p o.dict_val },
        rw e,
        insert-IsSorted k p o.dict_val sorted,
        rw (e, find-insert j k p o.dict_val sorted, found-or_else, was),
      )
  | inr e ↦ absurd (cc (rw e at h))
]
