-- ===== src/Unittests/Objects/Refines.antt =====
-- The class whose objects own their elements against the class whose objects point to them.
use btor.Base.{ℕ, suc, ◌≡◌, refl, ap, ◌∙◌, ◌⊎◌, List, [], ◌∷◌, ◌++◌, inl, inr}
use btor.Base.{Bytes, length, bytes_eq, bytes_compare, Bool-cases}
use btor.Base.Order.{Ordering-cases}
use btor.Base.Outcome.{Outcome, ok, raised, type_error, bind}
use btor.Object
use btor.Object.Dict.{Ptr, Dictionary, insert, find}
use btor.Object.{BObject, b_integer, b_string, b_list, b_dict, b_null, is_kind, found}
use btor.Unittests.Objects.Copies.{print-copy}
use btor.Unittests.Objects.{
  OwnedObject, Elements, Entries, owned, no_elements, element, no_entries, entry, append,
  insert_entry, find_entry, copy, push_back, add_key_value, get_by_key, get_int, get_string,
  get_list, get_dict, get_length, elements_size,
}

module _ (f : OwnedObject → Ptr) where
  -- The object with a pointer in place of each element.
  abbrev pub pointers : Elements → List Ptr
  pointers no_elements = []
  pointers (element o xs) = f o ∷ pointers xs

  abbrev pub addresses : Entries → Dictionary
  addresses no_entries = []
  addresses (entry k o d) = (k, f o) ∷ addresses d

  abbrev pub as_pointers : OwnedObject → BObject
  as_pointers (owned type s i xs d) = record {
    kind = type;
    string_val = s;
    int_val = i;
    list_val = pointers xs;
    dict_val = addresses d;
  }

  -- The lengths agree, or the object is of one of the two types on which the earlier class throws.
  abbrev pub LengthAgrees : OwnedObject → Type 0
  LengthAgrees o =
      (get_length o ≡ Object.get_length (as_pointers o))
      ⊎ (((as_pointers o).kind ≡ b_string) ⊎ ((as_pointers o).kind ≡ b_dict))
        × (get_length o ≡ raised type_error)
        × ((n : ℕ) × (Object.get_length (as_pointers o) ≡ ok n))

  elements_size-pointers : (xs : Elements) → elements_size xs ≡ length (pointers xs)
  unfolding elements_size
  elements_size-pointers no_elements = refl
  elements_size-pointers (element o xs) = ap suc (elements_size-pointers xs)

  pointers-append :
      (xs : Elements) (o : OwnedObject) → pointers (append xs o) ≡ pointers xs ++ f o ∷ []
  unfolding append
  pointers-append no_elements o = refl
  pointers-append (element x xs) o = ap (λ (ps : List Ptr). f x ∷ ps) (pointers-append xs o)

  addresses-insert_entry :
      (k : Bytes) (v : OwnedObject) (d : Entries)
      → addresses (insert_entry k v d) ≡ insert k (f v) (addresses d)
  unfolding insert_entry insert
  addresses-insert_entry k v no_entries = refl
  addresses-insert_entry k v (entry j o d) = elim (Ordering-cases (bytes_compare k j)) [
    | inl e ↦ rw (e, insert_entry, insert) refl
    | inr (inl e) ↦ rw (e, insert_entry, insert) refl
    | inr (inr e) ↦
        rw (e, insert_entry, insert)
          (ap (λ (r : Dictionary). (j, f o) ∷ r) (addresses-insert_entry k v d))
  ]

  -- A result with pointers in place of what it holds.
  abbrev pub translated {ℓ κ} : {A : Type ℓ} {B : Type κ} → (A → B) → Outcome A → Outcome B
  translated g r = bind r λ a. ok (g a)

  push_back-as_pointers :
      (obj o : OwnedObject)
      → translated as_pointers (push_back obj o) ≡ Object.push_back (f (copy obj)) (as_pointers o)
  unfolding push_back is_kind Object.push_back
  push_back-as_pointers obj (owned b_list s i xs d) = rw (pointers-append xs (copy obj)) refl
  push_back-as_pointers obj (owned b_integer s i xs d) = refl
  push_back-as_pointers obj (owned b_string s i xs d) = refl
  push_back-as_pointers obj (owned b_dict s i xs d) = refl
  push_back-as_pointers obj (owned b_null s i xs d) = refl

  add_key_value-as_pointers :
      (key : Bytes) (val o : OwnedObject)
      → translated as_pointers (add_key_value key val o)
        ≡ Object.add_key_value key (f (copy val)) (as_pointers o)
  unfolding add_key_value is_kind Object.add_key_value
  add_key_value-as_pointers key val (owned b_dict s i xs d) =
      let once : copy (copy (copy val)) ≡ copy val =
        (print-copy (copy val)).1 ∙ (print-copy val).1 in
      rw (once, addresses-insert_entry key (copy val) d) refl
  add_key_value-as_pointers key val (owned b_integer s i xs d) = refl
  add_key_value-as_pointers key val (owned b_string s i xs d) = refl
  add_key_value-as_pointers key val (owned b_list s i xs d) = refl
  add_key_value-as_pointers key val (owned b_null s i xs d) = refl

  find_entry-addresses :
      (key : Bytes) (d : Entries) → translated f (find_entry key d) ≡ found (find key (addresses d))
  unfolding find_entry find found
  find_entry-addresses key no_entries = refl
  find_entry-addresses key (entry k o d) = elim (Bool-cases (bytes_eq k key)) [
    | inl e ↦ rw e refl
    | inr e ↦ rw e (find_entry-addresses key d)
  ]

  get_by_key-as_pointers :
      (key : Bytes) (o : OwnedObject)
      → translated f (get_by_key key o) ≡ Object.get_by_key key (as_pointers o)
  unfolding get_by_key is_kind Object.get_by_key
  get_by_key-as_pointers key (owned b_dict s i xs d) = find_entry-addresses key d
  get_by_key-as_pointers key (owned b_integer s i xs d) = refl
  get_by_key-as_pointers key (owned b_string s i xs d) = refl
  get_by_key-as_pointers key (owned b_list s i xs d) = refl
  get_by_key-as_pointers key (owned b_null s i xs d) = refl

  values-as_pointers :
      (o : OwnedObject)
      → (get_int o ≡ Object.get_int (as_pointers o))
        × (get_string o ≡ Object.get_string (as_pointers o))
        × (translated pointers (get_list o) ≡ Object.get_list (as_pointers o))
        × (translated addresses (get_dict o) ≡ Object.get_dict (as_pointers o))
  unfolding get_int get_string get_list get_dict is_kind Object.get_int Object.get_string
      Object.get_list Object.get_dict
  values-as_pointers (owned b_integer s i xs d) = (refl, refl, refl, refl)
  values-as_pointers (owned b_string s i xs d) = (refl, refl, refl, refl)
  values-as_pointers (owned b_list s i xs d) = (refl, refl, refl, refl)
  values-as_pointers (owned b_dict s i xs d) = (refl, refl, refl, refl)
  values-as_pointers (owned b_null s i xs d) = (refl, refl, refl, refl)

  get_length-as_pointers : (o : OwnedObject) → LengthAgrees o
  unfolding get_length elements_size is_kind Object.get_length
  get_length-as_pointers (owned b_list s i xs d) = inl (rw (elements_size-pointers xs) refl)
  get_length-as_pointers (owned b_integer s i xs d) = inl refl
  get_length-as_pointers (owned b_null s i xs d) = inl refl
  get_length-as_pointers (owned b_string s i xs d) = inr (inl refl, refl, (_, refl))
  get_length-as_pointers (owned b_dict s i xs d) = inr (inr refl, refl, (_, refl))

  -- Wherever the elements are put, the class that points to them does what the class that owns them
  -- does in pushing, adding, looking up and the four accessors: the same objects, pointers, values
  -- and exceptions, where what is pushed or added is a copy. `getLength` does the same but on a string
  -- and a dictionary, where the owning class throws a BTypeException and the pointing one gives a
  -- size.
  pub as_pointers_lem :
      (o obj : OwnedObject) (key : Bytes)
      → (translated as_pointers (push_back obj o) ≡ Object.push_back (f (copy obj)) (as_pointers o))
        × (translated as_pointers (add_key_value key obj o)
            ≡ Object.add_key_value key (f (copy obj)) (as_pointers o))
        × (translated f (get_by_key key o) ≡ Object.get_by_key key (as_pointers o))
        × ((get_int o ≡ Object.get_int (as_pointers o))
            × (get_string o ≡ Object.get_string (as_pointers o))
            × (translated pointers (get_list o) ≡ Object.get_list (as_pointers o))
            × (translated addresses (get_dict o) ≡ Object.get_dict (as_pointers o)))
        × LengthAgrees o
  as_pointers_lem o obj key = (
    push_back-as_pointers obj o,
    add_key_value-as_pointers key obj o,
    get_by_key-as_pointers key o,
    values-as_pointers o,
    get_length-as_pointers o,
  )
