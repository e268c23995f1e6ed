-- ===== src/Print.antt =====
-- `operator<<` of btor/bobject.cpp: the text that it writes for an object. It follows pointers, so it
-- runs on fuel, which is the depth to which it may go.
pub mod Total
pub mod Shows
pub mod Reorders
use btor.Base.{ℕ, zero, suc, Bool, true, false, List, [], ◌∷◌, ◌++◌}
use btor.Base.{Bytes, codes, if◌then◌else◌}
use btor.Base.Decimal.{decimal_int}
use btor.Base.Outcome.{Outcome, ok, out_of_fuel, bind}
use btor.Memory.{Memory, deref}
use btor.Object.Dict.{Ptr, Dictionary}
use btor.Object.{
  Kind, BObject, b_string, b_integer, b_list, b_dict, b_null, get_int, get_string, get_list,
  get_dict,
}

-- `if (not first) os << ", "; else first = false;`
abbrev pub separator : Bool → Bytes
separator first = if first then [] else codes ", "

abbrev pub quoted : Bytes → Bytes
quoted s = b'"' ∷ (s ++ b'"' ∷ [])

-- The loops over the elements of a list and over the entries of a dictionary; `print` writes the
-- object at a pointer.
unfoldable pub print_items : (Ptr → Outcome Bytes) → Bool → List Ptr → Outcome Bytes
print_items print first [] = ok []
print_items print first (obj ∷ rest) =
    bind (print obj) λ s. bind (print_items print false rest) λ t. ok (separator first ++ (s ++ t))

unfoldable pub print_entries : (Ptr → Outcome Bytes) → Bool → Dictionary → Outcome Bytes
print_entries print first [] = ok []
print_entries print first ((key, val) ∷ rest) = bind (print val) λ s.
    bind (print_entries print false rest)
      λ t. ok (separator first ++ (quoted key ++ (codes ": " ++ (s ++ t))))

-- The `switch` on the type.
unfoldable pub print_as : Kind → (Ptr → Outcome Bytes) → BObject → Outcome Bytes
print_as b_integer print bo = bind (get_int bo) λ i. ok (decimal_int i)
print_as b_string print bo = bind (get_string bo) λ s. ok (quoted s)
print_as b_list print bo =
    bind (get_list bo) λ xs. bind (print_items print true xs) λ s. ok (b'[' ∷ (s ++ b']' ∷ []))
print_as b_dict print bo =
    bind (get_dict bo) λ d. bind (print_entries print true d) λ s. ok (b'{' ∷ (s ++ b'}' ∷ []))
print_as b_null print bo = ok (codes "BNull")

-- `os << *p`
unfoldable pub print_object : ℕ → Memory → Ptr → Outcome Bytes
print_object zero m p = out_of_fuel
print_object (suc f) m p = bind (deref p m) λ bo. print_as bo.kind (print_object f m) bo
