-- ===== src/Tests/Objects.antt =====
-- The theorems on the memory and on what is written, applied to the objects of small texts.
use btor.Base.{ℕ, ◌+◌, ◌<◌, ◌≤◌, ◌≡◌, refl, false, some, none, [], ◌∷◌, ◌++◌, arith}
use btor.Base.{Bytes, codes, take, get_elem?}
use btor.Base.Outcome.{ok}
use btor.Bencode.{Value, int, str, list, item, no_items, IsReadable, total_length, encode}
use btor.Cursor.Sees.{Sees}
use btor.Memory.Denotes.{Denotes}
use btor.Parser.Accepts.{
  parse_bencoded_string-HasType, parse_bencoded_string-Reads, parse_bencoded_string-Spells,
}
use btor.Parser.Spells.{
  Fits, Spells, a_list, an_item, an_integer, a_string, counted, no_more, digits_among,
}
use btor.Cursor.{World, new_world}
use btor.Memory.Destroyed.{destroy-IsSound}
use btor.Memory.Sound.{IsSound, new_memory-IsSound, get_new_bobject-IsSound}
use btor.Memory.{Memory, new_memory, next, get_new_bobject, destroy}
use btor.Object.Dict.{Ptr}
use btor.Memory.Lookup.{read}
use btor.Memory.Typed.{HasType, element, here}
use btor.Object.{of_int, of_list, get_list}
use btor.Base.Int.{pos, negsuc}
use btor.Parser.Keeps.{parse_bencoded_string-IsSound}
use btor.Parser.{parse_bencoded_string, get_collected_length}
use btor.Print.Shows.{show, size, print_object-parse-encode}
use btor.Print.Total.{print_object-parse}
use btor.Print.{print_object}
use btor.Tests.{torrent, torrent-Prints}

-- A memory with one object.
abbrev pub one_object : Memory
one_object = (get_new_bobject (of_int (pos 1)) new_memory).1

pub one_object-IsSound : IsSound one_object
one_object-IsSound =
    get_new_bobject-IsSound new_memory new_memory-IsSound (of_int (pos 1)) refl refl

destroy-IsSound_example :
    (m' : Memory) × (destroy one_object ≡ ok m')
    × (next m' ≡ next one_object)
    × ((p : Ptr) → p < next m' → get_elem? m'.heap p ≡ some none)
destroy-IsSound_example = destroy-IsSound one_object one_object-IsSound

-- i7e
abbrev seven : World
seven = record new_world {
  parser = record new_world.parser { cursor = 3; parse_buf = codes "i7e" };
  memory = (get_new_bobject (of_int (pos 7)) new_memory).1;
}

seven_read : parse_bencoded_string (codes "i7e") new_world ≡ ok (0, seven)
unfolding parse_bencoded_string btor.Parser.parse_arbitrary btor.Cursor.peek_char
    btor.Parser.dispatch btor.Cursor.consume_char btor.Cursor.alloc btor.Base.Decimal.is_digit
    btor.Memory.get_new_bobject btor.Cursor.taken btor.Parser.integer_loop btor.Parser.parse_integer
    btor.Parser.throw_parser_error
seven_read = refl

parse_bencoded_string-IsSound_example :
    IsSound seven.memory × (next new_world.memory ≤ 0) × (0 < next seven.memory)
parse_bencoded_string-IsSound_example =
    parse_bencoded_string-IsSound (codes "i7e") new_world 0 seven new_memory-IsSound seven_read

print_object-parse_example : (s : Bytes) × (print_object (next seven.memory) seven.memory 0 ≡ ok s)
print_object-parse_example =
    print_object-parse (codes "i7e") new_world 0 seven new_memory-IsSound seven_read

torrent-size : size torrent ≤ 8
unfolding size btor.Parser.Info.join
torrent-size = omega arith

print_object-parse-encode_example :
    (p : Ptr) × (w' : World) × (parse_bencoded_string (encode torrent ++ []) new_world ≡ ok (p, w'))
    × (print_object 8 w'.memory p ≡ ok (show torrent))
print_object-parse-encode_example =
    print_object-parse-encode torrent [] 0 new_world 8 torrent-Prints torrent-size

-- i-1x2e
abbrev noisy : World
noisy = record new_world {
  parser = record new_world.parser { cursor = 6; parse_buf = codes "i-1x2eabc" };
  memory = (get_new_bobject (of_int (negsuc 11)) new_memory).1;
}

noisy_read : parse_bencoded_string (codes "i-1x2eabc") new_world ≡ ok (0, noisy)
unfolding parse_bencoded_string btor.Parser.parse_arbitrary btor.Cursor.peek_char
    btor.Parser.dispatch btor.Cursor.consume_char btor.Cursor.alloc btor.Base.Decimal.is_digit
    btor.Memory.get_new_bobject btor.Cursor.taken btor.Parser.integer_loop btor.Parser.parse_integer
    btor.Parser.throw_parser_error
noisy_read = refl

parse_bencoded_string-Spells_example :
    (v : Value) × (c : Bytes) × (rest : Bytes) × (codes "i-1x2eabc" ≡ c ++ rest)
    × Spells v c
    × Fits v
    × Sees rest noisy.parser
    × (0 ≡ next new_world.memory)
    × Denotes noisy.memory 0 0 v
    × (take 0 noisy.memory.heap ≡ new_world.memory.heap)
parse_bencoded_string-Spells_example =
    parse_bencoded_string-Spells (codes "i-1x2eabc") new_world 0 noisy (omega arith) noisy_read

-- The list of 12 and "abc", as li1x2e03:abce.
abbrev loose : Value
loose = list (item (int (pos 12)) (item (str (codes "abc")) no_items))

loose-Spells : Spells loose (codes "li1x2e03:abce")
unfolding digits_among btor.Base.Decimal.is_digit btor.Base.Decimal.digits_value
loose-Spells = a_list tt (
    an_item (an_integer false (codes "1x2") (refl, refl, (refl, refl, (refl, refl, tt))))
      (an_item (a_string refl (counted (codes "03") (refl, (refl, tt)) refl)) no_more))

loose-IsReadable : IsReadable loose
unfolding IsReadable
loose-IsReadable = (tt, (omega arith, (omega arith, tt)))

parse_bencoded_string-Reads_example :
    (w' : World) × (parse_bencoded_string (codes "li1x2e03:abce" ++ codes "e") new_world
      ≡ ok (0, w'))
    × Denotes w'.memory 0 0 loose
    × Sees (codes "e") w'.parser
    × (get_collected_length w' ≡ pos (0 + total_length loose))
parse_bencoded_string-Reads_example =
    parse_bencoded_string-Reads loose (codes "li1x2e03:abce") (codes "e") 0 new_world loose-Spells
      loose-IsReadable (omega arith) (unfold get_collected_length in refl)
      (unfold total_length in omega arith)

-- li7ee
abbrev nested : World
nested = record new_world {
  parser = record new_world.parser { cursor = 5; parse_buf = codes "li7ee" };
  memory = record {
    heap = some (of_list (1 ∷ [])) ∷ some (of_int (pos 7)) ∷ [];
    objects = 0 ∷ 1 ∷ [];
  };
}

nested_read : parse_bencoded_string (codes "li7ee") new_world ≡ ok (0, nested)
unfolding parse_bencoded_string btor.Parser.parse_arbitrary btor.Cursor.peek_char
    btor.Parser.dispatch btor.Cursor.consume_char btor.Cursor.alloc btor.Base.Decimal.is_digit
    btor.Memory.get_new_bobject btor.Cursor.taken btor.Parser.integer_loop btor.Parser.parse_integer
    btor.Parser.throw_parser_error btor.Cursor.update btor.Memory.deref btor.Memory.store
    btor.Object.push_back btor.Object.is_kind
nested_read = refl

nested_list : read 0 get_list nested.memory ≡ ok (1 ∷ [])
unfolding btor.Memory.deref get_list btor.Object.is_kind
nested_list = refl

parse_bencoded_string-HasType_example : HasType nested.memory 1
parse_bencoded_string-HasType_example =
    parse_bencoded_string-HasType (codes "li7ee") new_world 0 nested 1 (omega arith) nested_read
      (element (1 ∷ []) 0 nested_list refl here)
