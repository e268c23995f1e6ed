-- ===== src/Unittests.antt =====
-- The unit tests of btor_unittests/btor_unittests.cpp, one function each, over the model of the code
-- that they call. A test ends in `ok true` where each of its assertions holds, and in `ok false`
-- where one does not.
pub mod Objects
use btor.Base.{ℕ, ◌+◌, Bool, true, false, not, ◌&&◌, Option, none, some, List, [], ◌∷◌}
use btor.Base.{Bytes, codes, bytes_eq, length, take, get_elem?, ◌==◌}
use btor.Base.Int.{ℤ, pos, negsuc}
use btor.Base.Outcome.{Outcome, ok, raised, type_error, key_error, undefined, out_of_fuel, bind}
use btor.Announce.{url_encode, generate_id}
use btor.Bitfield.{set_bit_in_bitfield, is_bit_in_bitfield_set}
use btor.Object.Dict.{Ptr}
use btor.Object.{
  BObject, of_kind, of_int, of_string, b_list, b_dict, copy, push_back, add_key_value, get_int,
  get_string, get_by_key, check_if_has_key, get_length,
}

abbrev pub Verdict : Type 0
Verdict = Outcome Bool

-- `Assert::ExpectException`
abbrev pub expect_type_error {ℓ} : {A : Type ℓ} → Outcome A → Verdict
expect_type_error (raised type_error) = ok true
expect_type_error _ = ok false

abbrev pub expect_key_error {ℓ} : {A : Type ℓ} → Outcome A → Verdict
expect_key_error (raised key_error) = ok true
expect_key_error _ = ok false

-- Test_UrlEncode
unfoldable pub test_url_encode : Verdict
test_url_encode = ok (bytes_eq (url_encode (codes "BEEFED")) (codes "%BE%EF%ED"))

has_id_form : Option Bytes → Verdict
has_id_form none = out_of_fuel
has_id_form (some id) = ok (bytes_eq (take 8 id) (codes "-btor01-") && (20 == length id))

-- Test_Generate_id, over the numbers that `rand()` returns.
unfoldable pub test_generate_id : List ℕ → Verdict
unfolding has_id_form
test_generate_id rands = has_id_form (generate_id rands)

-- A bit is set, and the one behind it is not.
unfoldable pub set_and_get : Bytes → ℕ → Verdict
set_and_get bfield bit = bind (set_bit_in_bitfield bfield (pos bit)) λ bfield'.
    bind (is_bit_in_bitfield_set bfield' (pos bit)) λ set.
      bind (is_bit_in_bitfield_set bfield' (pos (bit + 1))) λ following. ok (set && not following)

-- Set_and_get_Bit_In_Bitfield_First_Byte and Set_and_get_Bit_In_Bitfield_Second_Byte
unfoldable pub set_and_get_first_byte : Verdict
set_and_get_first_byte = set_and_get (0 ∷ 0 ∷ 0 ∷ 0 ∷ []) 0

unfoldable pub set_and_get_second_byte : Verdict
set_and_get_second_byte = set_and_get (0 ∷ 0 ∷ 0 ∷ 0 ∷ []) 8

-- `bfield[i]` against a value.
byte_is : ℕ → Option ℕ → Verdict
byte_is expected none = undefined
byte_is expected (some byte) = ok (byte == expected)

-- Check_Set_First_Bit
unfoldable pub check_set_first_bit : Verdict
unfolding byte_is
check_set_first_bit =
    bind (set_bit_in_bitfield (0 ∷ 0 ∷ 0 ∷ 0 ∷ []) (pos 0))
      λ bfield. byte_is 0x80 (get_elem? bfield 0)

-- Check_Set_Last_Bit
unfoldable pub check_set_last_bit : Verdict
unfolding byte_is
check_set_last_bit =
    bind (set_bit_in_bitfield (0 ∷ 0 ∷ 0 ∷ []) (pos 23)) λ bfield. byte_is 0x01 (get_elem? bfield 2)

is_twelve : ℤ → Bool
is_twelve (pos n) = n == 12
is_twelve (negsuc n) = false

-- BObject_BInt_Test
unfoldable pub bobject_bint_test : Verdict
unfolding is_twelve
bobject_bint_test = bind (get_int (of_int (pos 12))) λ i. ok (is_twelve i)

-- `*s.c_str()`
first_char : Bytes → ℕ
first_char [] = 0
first_char (c ∷ cs) = c

-- BObject_BString_Test: the first characters are compared.
unfoldable pub bobject_bstring_test : Verdict
unfolding first_char
bobject_bstring_test =
    bind (get_string (of_string (codes "Test String")))
      λ s. ok (first_char s == first_char (codes "Test String"))

-- BObject_BList_Length_Test: `p` and `q` are the addresses of two local objects.
unfoldable pub bobject_blist_length_test : Ptr → Ptr → Verdict
bobject_blist_length_test p q =
    bind (push_back p (of_kind b_list))
      λ blist. bind (push_back q blist) λ blist'. bind (get_length blist') λ n. ok (n == 2)

-- BObject_BDict_Add_and_Get_key
unfoldable pub bobject_bdict_add_and_get_key : Ptr → Ptr → Verdict
bobject_bdict_add_and_get_key p q =
    bind (add_key_value (codes "int_key") p (of_kind b_dict)) λ bdict.
      bind (add_key_value (codes "str_key") q bdict) λ bdict'. bind (get_length bdict') λ n.
        bind (check_if_has_key (codes "int_key") bdict') λ has_int.
          bind (check_if_has_key (codes "str_key") bdict')
            λ has_str. ok ((n == 2) && (has_int && has_str))

-- BObject_BDict_GetLength_Error: the lambda holds a copy.
unfoldable pub bobject_bdict_getlength_error : Verdict
bobject_bdict_getlength_error = expect_type_error (get_length (copy (of_int (pos 12))))

-- BObject_BDict_Get_Nonexistent_Key
unfoldable pub bobject_bdict_get_nonexistent_key : Ptr → Verdict
bobject_bdict_get_nonexistent_key p =
    bind (add_key_value (codes "int_key") p (of_kind b_dict))
      λ bdict. expect_key_error (get_by_key (codes "non_key") (copy bdict))

-- All of them, in the order of the file.
abbrev pub unit_tests : List ℕ → Ptr → Ptr → List Verdict
unit_tests rands p q =
    test_url_encode
    ∷ test_generate_id rands
    ∷ set_and_get_first_byte
    ∷ set_and_get_second_byte
    ∷ check_set_first_bit
    ∷ check_set_last_bit
    ∷ bobject_bint_test
    ∷ bobject_bstring_test
    ∷ bobject_blist_length_test p q
    ∷ bobject_bdict_add_and_get_key p q
    ∷ bobject_bdict_getlength_error
    ∷ bobject_bdict_get_nonexistent_key p
    ∷ []
