-- ===== src/Unittests/Objects.antt =====
-- btor_unittests/BObject.cpp: `be::BObject`, an earlier form of the class that owns its elements
-- instead of pointing to them. An object has all five members, of which its type says which counts.
pub mod Copies
pub mod Refines
use Prim.Native.Nat.{Ordering}
use btor.Base.{ℕ, suc, ◌%◌, ◌^◌, Bool, true, false, Option, none, some, [], ◌∷◌, ◌++◌}
use btor.Base.{Bytes, codes, bytes_eq, bytes_compare, if◌then◌else◌}
use btor.Base.Decimal.{decimal_int}
use btor.Base.Int.{ℤ, pos}
use btor.Base.Outcome.{Outcome, ok, raised, type_error, key_error, bind}
use btor.Object.{Kind, b_string, b_integer, b_list, b_dict, b_null, is_kind, unsigned_int}
use btor.Print.{separator, quoted}

mutual
  -- type, stringVal, intVal, listVal, dictVal
  pub data OwnedObject : Type 0 where
    owned : Kind → Bytes → ℤ → Elements → Entries → OwnedObject

  pub data Elements : Type 0 where
    no_elements : Elements
    element : OwnedObject → Elements → Elements

  -- `std::map<std::string, BObject>`, in the order of the keys.
  pub data Entries : Type 0 where
    no_entries : Entries
    entry : Bytes → OwnedObject → Entries → Entries

-- `BObject()` and `BObject(initType)`
abbrev pub of_type : Kind → OwnedObject
of_type init_type = owned init_type [] (pos 0) no_elements no_entries

abbrev pub null : OwnedObject
null = of_type b_null

-- `BObject(const BObject& other)`: the member that counts is copied, which copies the elements.
unfoldable mutual
  pub copy : OwnedObject → OwnedObject
  copy (owned b_integer s i xs d) = owned b_integer [] i no_elements no_entries
  copy (owned b_string s i xs d) = owned b_string s (pos 0) no_elements no_entries
  copy (owned b_list s i xs d) = owned b_list [] (pos 0) (copy_elements xs) no_entries
  copy (owned b_dict s i xs d) = owned b_dict [] (pos 0) no_elements (copy_entries d)
  copy (owned b_null s i xs d) = of_type b_null

  pub copy_elements : Elements → Elements
  copy_elements no_elements = no_elements
  copy_elements (element o xs) = element (copy o) (copy_elements xs)

  pub copy_entries : Entries → Entries
  copy_entries no_entries = no_entries
  copy_entries (entry k o d) = entry k (copy o) (copy_entries d)

-- The constructors from a value; each copies it.
unfoldable pub of_int : ℤ → OwnedObject
of_int init_int = owned b_integer [] init_int no_elements no_entries

unfoldable pub of_string : Bytes → OwnedObject
of_string init_string = owned b_string init_string (pos 0) no_elements no_entries

unfoldable pub of_list : Elements → OwnedObject
of_list init_list = owned b_list [] (pos 0) (copy_elements init_list) no_entries

unfoldable pub of_dict : Entries → OwnedObject
of_dict init_dict = owned b_dict [] (pos 0) no_elements (copy_entries init_dict)

unfoldable pub append : Elements → OwnedObject → Elements
append no_elements obj = element obj no_elements
append (element o xs) obj = element o (append xs obj)

-- `if (type != ...) throw BTypeException();`
abbrev pub require {ℓ} :
    {A : Type ℓ} → Kind → OwnedObject → (Bytes → ℤ → Elements → Entries → Outcome A) → Outcome A
require wanted (owned type s i xs d) f =
    if is_kind type wanted then f s i xs d else raised type_error

-- The vector copies what is pushed.
unfoldable pub push_back : OwnedObject → OwnedObject → Outcome OwnedObject
push_back obj o = require b_list o λ s i xs d. ok (owned b_list s i (append xs (copy obj)) d)

-- `std::map::insert`: a key that is there keeps its value.
unfoldable pub insert_entry : Bytes → OwnedObject → Entries → Entries
insert_entry key val no_entries = entry key val no_entries
insert_entry key val (entry k o d) = elim (bytes_compare key k) [
  | Ordering.lt ↦ entry key val (entry k o d)
  | Ordering.eq ↦ entry k o d
  | Ordering.gt ↦ entry k o (insert_entry key val d)
]

-- The value is copied as an argument, into the pair, and into the map.
unfoldable pub add_key_value : Bytes → OwnedObject → OwnedObject → Outcome OwnedObject
add_key_value key val o =
    require b_dict o
      λ s i xs d. ok (owned b_dict s i xs (insert_entry key (copy (copy (copy val))) d))

-- The loop over the entries.
unfoldable pub find_entry : Bytes → Entries → Outcome OwnedObject
find_entry search_key no_entries = raised key_error
find_entry search_key (entry k o d) =
    if bytes_eq k search_key then ok o else find_entry search_key d

unfoldable pub get_by_key : Bytes → OwnedObject → Outcome OwnedObject
get_by_key search_key o = require b_dict o λ s i xs d. find_entry search_key d

unfoldable pub get_int : OwnedObject → Outcome ℤ
get_int o = require b_integer o λ s i xs d. ok i

unfoldable pub get_string : OwnedObject → Outcome Bytes
get_string o = require b_string o λ s i xs d. ok s

unfoldable pub get_list : OwnedObject → Outcome Elements
get_list o = require b_list o λ s i xs d. ok xs

unfoldable pub get_dict : OwnedObject → Outcome Entries
get_dict o = require b_dict o λ s i xs d. ok d

unfoldable pub elements_size : Elements → ℕ
elements_size no_elements = 0
elements_size (element o xs) = suc (elements_size xs)

-- Lists only have a length here.
unfoldable pub get_length : OwnedObject → Outcome ℕ
get_length o = require b_list o λ s i xs d. ok (unsigned_int (elements_size xs))

-- `operator<<`: in each case of the switch the type is the one that the accessor wants.
unfoldable mutual
  pub print : OwnedObject → Bytes
  print (owned b_integer s i xs d) = decimal_int i
  print (owned b_string s i xs d) = quoted s
  print (owned b_list s i xs d) = b'[' ∷ (print_elements true xs ++ b']' ∷ [])
  print (owned b_dict s i xs d) = b'{' ∷ (print_entries true d ++ b'}' ∷ [])
  print (owned b_null s i xs d) = codes "BNull"

  pub print_elements : Bool → Elements → Bytes
  print_elements first no_elements = []
  print_elements first (element o xs) = separator first ++ (print o ++ print_elements false xs)

  pub print_entries : Bool → Entries → Bytes
  print_entries first no_entries = []
  print_entries first (entry k o d) =
      separator first ++ (quoted k ++ (codes "-> " ++ (print o ++ print_entries false d)))
