-- ===== src/Object.antt =====
-- btor/bencode.h and btor/bobject.cpp: `BObject`, a tagged value whose lists and dictionaries hold
-- pointers to other objects. A `const` method is a function of the object; one that changes it
-- returns the new object. A pointer is an index into the heap of Memory.antt.
pub mod Dict
pub mod Sorted
pub mod Laws
use Prim.Native.Nat.{Ordering}
use btor.Base.{ℕ, ◌+◌, ◌%◌, ◌^◌, Bool, true, false, Option, none, some, List, [], ◌∷◌, ◌++◌}
use btor.Base.{Bytes, bytes_eq, length, if◌then◌else◌}
use btor.Base.Int.{ℤ, pos}
use btor.Base.Outcome.{Outcome, ok, raised, type_error, key_error}
use Dict.{Ptr, Dictionary, insert, find, dict_size}

-- `BObject_t`
pub data Kind : Type 0 where
  b_string b_integer b_list b_dict b_null : Kind

pub record BObject : Type 0 where
  pub kind : Kind
  pub string_val : Bytes
  pub int_val : ℤ
  pub list_val : List Ptr
  pub dict_val : Dictionary

-- `BObject(const BObject_t initType)`: the members that it does not name are default-initialised.
abbrev pub of_kind : Kind → BObject
of_kind k = record { kind = k; string_val = []; int_val = pos 0; list_val = []; dict_val = [] }

-- `BObject()`
abbrev pub null_object : BObject
null_object = of_kind b_null

-- `BObject(int64_t initInt)`
abbrev pub of_int : ℤ → BObject
of_int i = record (of_kind b_integer) { int_val = i }

-- `BObject(std::string initString)`
abbrev pub of_string : Bytes → BObject
of_string s = record (of_kind b_string) { string_val = s }

-- `BObject(std::vector<BObject*> initList)`
abbrev pub of_list : List Ptr → BObject
of_list xs = record (of_kind b_list) { list_val = xs }

-- `BObject(std::map<std::string, BObject*> initDict)`
abbrev pub of_dict : Dictionary → BObject
of_dict d = record (of_kind b_dict) { dict_val = d }

copy_of : Kind → BObject → BObject
copy_of b_integer other = record (of_kind b_integer) { int_val = other.int_val }
copy_of b_string other = record (of_kind b_string) { string_val = other.string_val }
copy_of b_list other = record (of_kind b_list) { list_val = other.list_val }
copy_of b_dict other = record (of_kind b_dict) { dict_val = other.dict_val }
copy_of b_null other = of_kind b_null

-- `BObject(const BObject& other)`: the member of the object's own type is copied, no other.
unfoldable pub copy : BObject → BObject
unfolding copy_of
copy other = copy_of other.kind other

unfoldable pub is_kind : Kind → Kind → Bool
is_kind b_string b_string = true
is_kind b_integer b_integer = true
is_kind b_list b_list = true
is_kind b_dict b_dict = true
is_kind b_null b_null = true
is_kind _ _ = false

-- `if (type != ...) throw BTypeException();`
abbrev pub require {ℓ} : {A : Type ℓ} → Kind → BObject → A → Outcome A
require k o a = if is_kind o.kind k then ok a else raised type_error

unfoldable pub get_type : BObject → Kind
get_type o = o.kind

unfoldable pub set_type : Kind → BObject → BObject
set_type k o = record o { kind = k }

unfoldable pub push_back : Ptr → BObject → Outcome BObject
unfolding is_kind
push_back p o = require b_list o (record o { list_val = o.list_val ++ p ∷ [] })

unfoldable pub add_key_value : Bytes → Ptr → BObject → Outcome BObject
unfolding is_kind
add_key_value key val o = require b_dict o (record o { dict_val = insert key val o.dict_val })

has_key : Bytes → Dictionary → Bool
has_key search_key [] = false
has_key search_key ((key, val) ∷ rest) =
    if bytes_eq key search_key then true else has_key search_key rest

unfoldable pub check_if_has_key : Bytes → BObject → Outcome Bool
unfolding is_kind has_key
check_if_has_key search_key o = require b_dict o (has_key search_key o.dict_val)

unfoldable pub found : Option Ptr → Outcome Ptr
found none = raised key_error
found (some p) = ok p

unfoldable pub get_by_key : Bytes → BObject → Outcome Ptr
unfolding is_kind found
get_by_key search_key o =
    if is_kind o.kind b_dict then found (find search_key o.dict_val) else raised type_error

unfoldable pub get_int : BObject → Outcome ℤ
unfolding is_kind
get_int o = require b_integer o o.int_val

unfoldable pub get_string : BObject → Outcome Bytes
unfolding is_kind
get_string o = require b_string o o.string_val

unfoldable pub get_list : BObject → Outcome (List Ptr)
unfolding is_kind
get_list o = require b_list o o.list_val

unfoldable pub get_dict : BObject → Outcome Dictionary
unfolding is_kind
get_dict o = require b_dict o o.dict_val

-- The result type is `unsigned int`: a size is cut to 32 bits.
abbrev pub unsigned_int : ℕ → ℕ
unsigned_int n = n % 2 ^ 32

length_of : Kind → BObject → Outcome ℕ
length_of b_list o = ok (unsigned_int (length o.list_val))
length_of b_string o = ok (unsigned_int (length o.string_val))
length_of b_dict o = ok (unsigned_int (dict_size o.dict_val))
length_of b_integer o = raised type_error
length_of b_null o = raised type_error

unfoldable pub get_length : BObject → Outcome ℕ
unfolding length_of
get_length o = length_of o.kind o
