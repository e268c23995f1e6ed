-- ===== src/Tests/Units.antt =====
-- The theorems on the unit tests, on the objects that own their elements and on the status bar, applied.
use btor.Base.{◌++◌, ◌≡◌, refl, true, ◌∷◌}
use btor.Base.{Bytes, codes, replicate, length, bytes_eq}
use btor.Base.Int.{pos}
use btor.Base.Outcome.{ok}
use btor.Object.{b_list, b_string}
use btor.Base.Decimal.{decimal_int, decimal, decimal_fuel}
use btor.Status.Width.{length-show_status}
use btor.Status.{show_status, middle_bit, cell}
use btor.Object
use btor.Unittests.Objects.Refines.{
  translated, as_pointers, pointers, addresses, LengthAgrees, as_pointers_lem,
}
use btor.Unittests.Objects.{
  push_back, add_key_value, get_by_key, get_int, get_string, get_list, get_dict, null,
}
use btor.Tests.Components.{rolls}
use btor.Unittests.Objects.Copies.{print-copy}
use btor.Unittests.Objects.{OwnedObject, owned, no_elements, element, no_entries, copy, print}
use btor.Unittests.{unit_tests}

-- All the tests of the repository at once.
all_pass : unit_tests rolls 1 2 ≡ replicate 12 (ok true)
unfolding btor.Unittests.test_url_encode btor.Unittests.set_and_get_first_byte bytes_eq
    btor.Unittests.test_generate_id btor.Announce.generate_id btor.Announce.id_loop decimal
    decimal_fuel btor.Unittests.set_and_get_second_byte btor.Unittests.check_set_first_bit
    btor.Unittests.check_set_last_bit btor.Unittests.bobject_bint_test
    btor.Unittests.bobject_bstring_test btor.Unittests.bobject_blist_length_test
    btor.Unittests.bobject_bdict_add_and_get_key btor.Unittests.bobject_bdict_getlength_error
    btor.Unittests.bobject_bdict_get_nonexistent_key btor.Announce.url_encode
    btor.Bitfield.set_bit_in_bitfield btor.Bitfield.is_bit_in_bitfield_set btor.Bitfield.as_int
    btor.Object.get_int btor.Object.get_string btor.Object.push_back btor.Object.add_key_value
    btor.Object.get_length btor.Object.check_if_has_key btor.Object.copy btor.Object.get_by_key
    btor.Object.Dict.insert btor.Object.Dict.find btor.Base.bytes_compare btor.Unittests.set_and_get
all_pass = refl

-- A list that still holds the text and the number from before it was one.
abbrev stale : OwnedObject
stale =
    owned b_list (codes "old") (pos 7)
      (element (owned b_string (codes "a") (pos 3) no_elements no_entries) no_elements) no_entries

print-copy_example : (print (copy stale) ≡ print stale) × (copy (copy stale) ≡ copy stale)
print-copy_example = print-copy stale

stale-print : print (copy stale) ≡ codes "[" ++ (b'"' ∷ codes "a") ++ b'"' ∷ codes "]"
unfolding print copy
stale-print = refl

length-show_status_example :
    (bar : Bytes) × (show_status (pos 4) (pos 47) ≡ replicate 22 8 ++ bar) × (length bar ≡ 22)
length-show_status_example = length-show_status 4 47

-- At 0.13: one full cell, then the digit with a point, then dots.
status_test :
    show_status (pos 1) (pos 13)
    ≡ replicate 22 8 ++ b'[' ∷ 254 ∷ 254 ∷ codes "3." ++ codes "................]"
unfolding show_status middle_bit cell decimal_int decimal decimal_fuel
status_test = refl

-- Every element at the address of its number of characters.
as_pointers_lem_example :
    let f = λ (o : OwnedObject). length (print o) in
    (translated f (as_pointers f) (push_back null stale)
      ≡ Object.push_back (f (copy null)) (as_pointers f stale))
    × (translated f (as_pointers f) (add_key_value (codes "k") null stale)
        ≡ Object.add_key_value (codes "k") (f (copy null)) (as_pointers f stale))
    × (translated f f (get_by_key (codes "k") stale)
        ≡ Object.get_by_key (codes "k") (as_pointers f stale))
    × ((get_int stale ≡ Object.get_int (as_pointers f stale))
        × (get_string stale ≡ Object.get_string (as_pointers f stale))
        × (translated f (pointers f) (get_list stale) ≡ Object.get_list (as_pointers f stale))
        × (translated f (addresses f) (get_dict stale) ≡ Object.get_dict (as_pointers f stale)))
    × LengthAgrees f stale
as_pointers_lem_example =
    as_pointers_lem (λ (o : OwnedObject). length (print o)) stale null (codes "k")
