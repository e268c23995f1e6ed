-- ===== src/Parser/Results.antt =====
-- What `parseBencodedString` promises of every text, and of the print of a value.
use btor.Base.{ℕ, ◌+◌, ◌*◌, ◌<◌, ◌^◌, ◌≡◌, ◌≢◌, refl, false, [], ◌++◌, ◌∙◌, arith}
use btor.Base.{Bytes, codes, length, length-append}
use btor.Base.Int.{pos}
use btor.Base.Outcome.{ok, undefined}
use btor.Bencode.{Value, Fields, dict, field, encode, IsReadable, total_length}
use btor.Cursor.Sees.{Sees, start}
use btor.Cursor.{World}
use btor.Memory.Denotes.{Denotes}
use btor.Memory.{next}
use btor.Object.Dict.{Ptr}
use btor.Parser.Info.{HasNoInfo, FieldsNoInfo, join, scan-info}
use btor.Parser.RoundTrip.{parse_arbitrary-encode}
use btor.Parser.Accepts.{parse_bencoded_string-Reads}
use btor.Parser.Spelt.Prints.{encode-Spells}
use btor.Parser.Steps.{after}
use btor.Parser.{
  parse_bencoded_string, throw_parser_error, get_collected_length, get_collected_info_dict,
}

-- A text begins with the print of a readable value, and the lengths collected so far leave room.
pub record Prints (v : Value) (rest : Bytes) (n : ℕ) (w : World) : Type 0 where
  pub readable : IsReadable v
  pub small : length (encode v ++ rest) < 2 ^ 32
  pub collected : w.parser.collected_length ≡ pos n
  pub room : n + total_length v < 2 ^ 63

Prints-Sees :
    {v : Value} {rest : Bytes} {n : ℕ} {w : World}
    → Prints v rest n w
    → Sees (encode v ++ rest) (start (encode v ++ rest) w).parser
Prints-Sees h = record { ahead = refl; small = h.small }

parse-after :
    (v : Value) (rest : Bytes) (n : ℕ) (w : World)
    → Prints v rest n w
    → parse_bencoded_string (encode v ++ rest) w
      ≡ ok (next w.memory, after v (start (encode v ++ rest) w))
unfolding parse_bencoded_string
parse-after v rest n w h =
    parse_arbitrary-encode v (3 * length (encode v ++ rest) + 4) n rest (start (encode v ++ rest) w)
      h.readable (record { sees = Prints-Sees h; collected = h.collected; small = h.room })
      (omega (arith, length-append (encode v) rest))

-- The parser reads the print of a readable value, whatever follows it: it returns a pointer to
-- objects that make up the value, all allocated by this call; the cursor then stands before what
-- follows; and every field called "length", at any depth, has been added to the collected length.
pub parse_bencoded_string-encode :
    (v : Value) (rest : Bytes) (n : ℕ) (w : World)
    → Prints v rest n w
    → (w' : World) × (parse_bencoded_string (encode v ++ rest) w ≡ ok (next w.memory, w'))
      × Denotes w'.memory (next w.memory) (next w.memory) v
      × Sees rest w'.parser
      × (get_collected_length w' ≡ pos (n + total_length v))
unfolding get_collected_length
parse_bencoded_string-encode v rest n w h =
    parse_bencoded_string-Reads v (encode v) rest n w (encode-Spells v h.readable) h.readable
      h.small h.collected h.room

-- From a dictionary with one field "info", and no other key "info" at any depth, before, inside or
-- behind that field's value, a parser that has collected nothing collects exactly the print of the
-- value: the text that is hashed. What follows the dictionary in the text does not matter.
pub parse_bencoded_string-info :
    (before : Fields) (v : Value) (behind : Fields) (rest : Bytes) (n : ℕ) (w : World)
    → FieldsNoInfo before
    → HasNoInfo v
    → FieldsNoInfo behind
    → Prints (dict (join before (field (codes "info") v behind))) rest n w
    → w.parser.collect_info_dict ≡ false
    → w.parser.collected_info_dict ≡ []
    → (p : Ptr) × (w' : World) × (parse_bencoded_string
          (encode (dict (join before (field (codes "info") v behind))) ++ rest)
          w
        ≡ ok (p, w'))
      × (get_collected_info_dict w' ≡ encode v)
unfolding get_collected_info_dict
parse_bencoded_string-info before v behind rest n w nb nv na h off empty =
    let t = dict (join before (field (codes "info") v behind)) in
    let w₀ = start (encode t ++ rest) w in
    (
      next w.memory,
      after t w₀,
      parse-after t rest n w h,
      scan-info before v behind w₀.parser nb nv na off ∙ rw empty,
    )

-- A BParserException about any character but a space cannot be built: the message is read past the
-- end of a literal, so that throwing it is undefined behaviour.
pub throw_parser_error-undefined :
    {A : Type 0} (c : ℕ) (w : World) → c ≢ b' ' → throw_parser_error {A = A} c w ≡ undefined
unfolding throw_parser_error
throw_parser_error-undefined c w h = ground arith
