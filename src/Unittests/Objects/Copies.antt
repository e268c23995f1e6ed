-- ===== src/Unittests/Objects/Copies.antt =====
-- What copying an object that owns its elements leaves of it.
use btor.Base.{◌≡◌, refl, Bool, true, false}
use btor.Object.{b_string, b_integer, b_list, b_dict, b_null}
use btor.Unittests.Objects.{
  OwnedObject, Elements, Entries, owned, no_elements, element, no_entries, entry, copy,
  copy_elements, copy_entries, print, print_elements, print_entries,
}

mutual
  unfolding copy

  copy_twice : (o : OwnedObject) → copy (copy o) ≡ copy o
  copy_twice (owned b_integer s i xs d) = refl
  copy_twice (owned b_string s i xs d) = refl
  copy_twice (owned b_list s i xs d) = rw (elements_twice xs) refl
  copy_twice (owned b_dict s i xs d) = rw (entries_twice d) refl
  copy_twice (owned b_null s i xs d) = refl

  elements_twice : (xs : Elements) → copy_elements (copy_elements xs) ≡ copy_elements xs
  elements_twice no_elements = refl
  elements_twice (element o xs) = rw (copy_twice o, elements_twice xs) refl

  entries_twice : (d : Entries) → copy_entries (copy_entries d) ≡ copy_entries d
  entries_twice no_entries = refl
  entries_twice (entry k o d) = rw (copy_twice o, entries_twice d) refl

mutual
  unfolding copy print

  print_copied : (o : OwnedObject) → print (copy o) ≡ print o
  print_copied (owned b_integer s i xs d) = refl
  print_copied (owned b_string s i xs d) = refl
  print_copied (owned b_list s i xs d) = rw (print_copied_elements true xs) refl
  print_copied (owned b_dict s i xs d) = rw (print_copied_entries true d) refl
  print_copied (owned b_null s i xs d) = refl

  print_copied_elements :
      (first : Bool) (xs : Elements)
      → print_elements first (copy_elements xs) ≡ print_elements first xs
  print_copied_elements first no_elements = refl
  print_copied_elements first (element o xs) =
      rw (print_copied o, print_copied_elements false xs) refl

  print_copied_entries :
      (first : Bool) (d : Entries) → print_entries first (copy_entries d) ≡ print_entries first d
  print_copied_entries first no_entries = refl
  print_copied_entries first (entry k o d) = rw (print_copied o, print_copied_entries false d) refl

-- The copy of an object, which leaves out the members that do not count, prints as the object does,
-- and a further copy is no other.
pub print-copy : (o : OwnedObject) → (print (copy o) ≡ print o) × (copy (copy o) ≡ copy o)
print-copy o = (print_copied o, copy_twice o)
