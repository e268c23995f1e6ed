-- ===== src/Parser.antt =====
-- The recursive descent of btor/bencode.cpp. Every call and every round of a loop costs one unit of
-- fuel; Parser/Fuel.antt shows that `parse_bencoded_string` hands out enough.
pub mod Strings
pub mod Rejects
pub mod Results
pub mod Terminates
pub mod Sound
pub mod Keeps
pub mod Ends
pub mod Fuel
pub mod Info
pub mod Ready
pub mod Rounds
pub mod RoundTrip
pub mod Reads
pub mod Steps
pub mod Spells
pub mod Took
pub mod Spelt
pub mod Accepts
pub mod Scan
pub mod Lengths
pub mod Integers
use btor.Base.{ℕ, zero, suc, ◌+◌, ◌-◌, ◌*◌, ◌^◌, Bool, true, false, not, ◌&&◌, ◌||◌, [], ◌∷◌, ◌++◌}
use btor.Base.{Bytes, codes, drop, bytes_eq, length, ltb, leb, ◌==◌, if◌then◌else◌}
use btor.Base.Decimal.{is_digit}
use btor.Base.Int.{ℤ, pos, negsuc, ◌+ℤ◌, neg_ℕ}
use btor.Base.Outcome.{Outcome, ok, raised, parser_error, aborted, undefined, out_of_fuel}
use btor.Cursor.{
  World, Cmd, pure, lift, run, ◌>>=◌, ◌>>◌, consume_char, peek_char, alloc, update, query,
}
use btor.Object.Dict.{Ptr}
use btor.Object.{b_list, b_dict, of_kind, of_int, of_string, push_back, add_key_value, get_int}

-- `isprint` in the C locale
abbrev pub isprint : ℕ → Bool
isprint c = leb b' ' c && leb c b'~'

-- The literal that the message of BParserException begins with.
abbrev pub message : Bytes
message = codes "Parser error: Unexpected symbol "

-- `throw BParserException(c)`. The constructor adds the character to the literal, a `const char*`:
-- the message is the literal from that offset on, and past its end this is undefined.
unfoldable pub throw_parser_error : {A : Type 0} → ℕ → Cmd A
throw_parser_error c w =
    let offset = if isprint c then c else b'?' in
    if leb offset (length message) then raised (parser_error (drop offset message)) else undefined

-- `assert(curChar == expected)`
abbrev pub assert_char : ℕ → ℕ → Cmd (Unit {0})
assert_char expected c = if c == expected then pure tt else λ _. aborted

-- `n *= 10; n += c - '0'` on a signed type whose values lie below `limit`: overflow is undefined.
abbrev pub append_digit : ℕ → ℕ → ℕ → Outcome ℕ
append_digit limit n c =
    if ltb (n * 10 + (c - b'0')) limit then ok (n * 10 + (c - b'0')) else undefined

-- `while (curChar != ':')`
unfoldable pub length_loop : ℕ → ℕ → ℕ → Cmd ℕ
length_loop zero cur_char stringlength = λ _. out_of_fuel
length_loop (suc f) cur_char stringlength =
    if cur_char == b':'
    then pure stringlength
    else if not (is_digit cur_char)
    then throw_parser_error cur_char
    else do
      n ← lift (append_digit (2 ^ 31) stringlength cur_char)
      c ← consume_char
      length_loop f c n

-- `while (stringlength != 0)`
unfoldable pub read_loop : ℕ → Bytes → Cmd Bytes
read_loop zero rstring = pure rstring
read_loop (suc n) rstring = do c ← consume_char; read_loop n (rstring ++ c ∷ [])

unfoldable pub extract_string : ℕ → Cmd Bytes
extract_string f = do
  cur_char ← consume_char
  stringlength ← length_loop f cur_char 0
  read_loop stringlength []

unfoldable pub parse_string : ℕ → Cmd Ptr
parse_string f = do b_string ← extract_string f; alloc (of_string b_string)

-- A character that is no digit leaves the value as it is.
abbrev pub integer_digit : ℕ → ℕ → Outcome ℕ
integer_digit int_val c = if is_digit c then append_digit (2 ^ 63) int_val c else ok int_val

-- `for(;;)` of `parseInteger`; while it runs `intVal` is not negative.
unfoldable pub integer_loop : ℕ → Bool → Bool → ℕ → Cmd (Bool × ℕ)
integer_loop zero first_char negative_number int_val = λ _. out_of_fuel
integer_loop (suc f) first_char negative_number int_val = do
  c ← consume_char
  if c == b'e'
      then pure (negative_number, int_val)
      else if c == b'-' && not first_char
      then throw_parser_error b'-'
      else do
        n ← lift (integer_digit int_val c)
        integer_loop f false (negative_number || (c == b'-' && first_char)) n

unfoldable pub parse_integer : ℕ → Cmd Ptr
parse_integer f = do
  c ← consume_char
  assert_char b'i' c
  (negative_number, int_val) ← integer_loop f true false 0
  alloc (of_int (if negative_number then neg_ℕ int_val else pos int_val))

abbrev pub set_collect : Bool → Cmd (Unit {0})
set_collect b w = ok (tt, record w { parser = record w.parser { collect_info_dict = b } })

abbrev pub is_info : Bytes → Bool
is_info key = bytes_eq key (codes "info")

abbrev pub is_length : Bytes → Bool
is_length key = bytes_eq key (codes "length")

-- The tests on `curKey` before its value is parsed.
unfoldable pub before_value : Bytes → Cmd (Unit {0})
before_value cur_key = if is_info cur_key then set_collect true else pure tt

-- The values of `int64_t`.
abbrev pub fits_int64 : ℤ → Bool
fits_int64 (pos n) = ltb n (2 ^ 63)
fits_int64 (negsuc n) = ltb n (2 ^ 63)

-- `this->collectedLength += n`: overflow is undefined.
unfoldable pub add_length : ℤ → Cmd (Unit {0})
add_length n w =
    let total = w.parser.collected_length +ℤ n in
    if fits_int64 total
    then ok (tt, record w { parser = record w.parser { collected_length = total } })
    else undefined

-- The tests on `curKey` after its value has been parsed.
unfoldable pub after_value : Bytes → Ptr → Cmd (Unit {0})
after_value cur_key cur_val =
    if is_info cur_key
    then set_collect false
    else if is_length cur_key
    then (do n ← query cur_val get_int; add_length n)
    else pure tt

-- The `switch` on the character seen, over the functions that it calls.
unfoldable pub dispatch : ℕ → Cmd Ptr → Cmd Ptr → Cmd Ptr → Cmd Ptr → Cmd Ptr
dispatch ch integer list dictionary string =
    if ch == b'i'
    then integer
    else if ch == b'l'
    then list
    else if ch == b'd'
    then dictionary
    else if is_digit ch
    then string
    else throw_parser_error ch

-- Each `do ... while (peekChar() != 'e')` runs its body first. Every branch of the loop in
-- `parseArbitrary` returns or throws; with nothing left to read it is not entered, and the function
-- ends with no `return`, which is undefined.
unfoldable mutual
  pub parse_arbitrary : ℕ → Cmd Ptr
  parse_arbitrary zero w = out_of_fuel
  parse_arbitrary (suc f) w =
      let found = run w do
        ch ← peek_char
        dispatch ch (parse_integer f) (parse_list f) (parse_dictionary f) (parse_string f)
      in if ltb w.parser.cursor (length w.parser.parse_buf) then found else undefined

  pub parse_list : ℕ → Cmd Ptr
  parse_list zero w = out_of_fuel
  parse_list (suc f) w = run w do
    cur_char ← consume_char
    assert_char b'l' cur_char
    b_obj ← alloc (of_kind b_list)
    list_loop f b_obj
    consume_char
    pure b_obj

  pub list_loop : ℕ → Ptr → Cmd (Unit {0})
  list_loop zero b_obj w = out_of_fuel
  list_loop (suc f) b_obj w = run w do
    cur_val ← parse_arbitrary f
    update b_obj (push_back cur_val)
    c ← peek_char
    if c == b'e' then pure tt else list_loop f b_obj

  pub parse_dictionary : ℕ → Cmd Ptr
  parse_dictionary zero w = out_of_fuel
  parse_dictionary (suc f) w = run w do
    cur_char ← consume_char
    assert_char b'd' cur_char
    b_obj ← alloc (of_kind b_dict)
    dictionary_loop f b_obj
    consume_char
    pure b_obj

  pub dictionary_loop : ℕ → Ptr → Cmd (Unit {0})
  dictionary_loop zero b_obj w = out_of_fuel
  dictionary_loop (suc f) b_obj w = run w do
    cur_key ← extract_string f
    before_value cur_key
    cur_val ← parse_arbitrary f
    after_value cur_key cur_val
    update b_obj (add_key_value cur_key cur_val)
    c ← peek_char
    if c == b'e' then pure tt else dictionary_loop f b_obj

-- More than the calls that a text of this length can take.
abbrev pub enough_fuel : Bytes → ℕ
enough_fuel to_parse = 3 * length to_parse + 4

-- Only the cursor and the buffer are set: what an earlier parse collected stays.
unfoldable pub parse_bencoded_string : Bytes → Cmd Ptr
parse_bencoded_string to_parse w =
    parse_arbitrary (enough_fuel to_parse)
      (record w { parser = record w.parser { cursor = 0; parse_buf = to_parse } })

-- `getCollectedInfoDict` and `getCollectedLength`
unfoldable pub get_collected_info_dict : World → Bytes
get_collected_info_dict w = w.parser.collected_info_dict

unfoldable pub get_collected_length : World → ℤ
get_collected_length w = w.parser.collected_length
