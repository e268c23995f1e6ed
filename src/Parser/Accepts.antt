-- ===== src/Parser/Accepts.antt =====
-- What `parseBencodedString` accepts, by the grammar of Parser/Spells.antt.
use btor.Base.{ℕ, suc, ◌+◌, ◌<◌, ◌^◌, ◌≡◌, refl, List, [], ◌∷◌, ◌++◌, arith}
use btor.Base.{Bytes, length, length-append, take, get_elem?}
use btor.Base.Outcome.{ok}
use btor.Bencode.{Value, IsReadable, total_length}
use btor.Base.Int.{pos}
use btor.Parser.Spelt.Texts.{parse_arbitrary-Reads}
use btor.Cursor.Sees.{Sees, start}
use btor.Cursor.{World}
use btor.Memory.Build.{build-frame}
use btor.Memory.Built.{build-Denotes}
use btor.Memory.Denotes.{Denotes}
use btor.Memory.Typed.{Reaches, HasType, Reaches-HasType}
use btor.Memory.{next}
use btor.Object.Dict.{Ptr}
use btor.Parser.Spells.{Fits, Spells}
use btor.Parser.Took.Values.{parse_arbitrary-Took}
use btor.Parser.Took.{Took}
use btor.Parser.{parse_bencoded_string, enough_fuel, get_collected_length}

take_same :
    {A : Type 0} (xs ys : List A)
    → ((i : ℕ) → i < length ys → get_elem? xs i ≡ get_elem? ys i)
    → take (length ys) xs ≡ ys
take_same xs [] same = refl
take_same [] (y ∷ ys) same = absurd (cc (same 0 (omega arith)))
take_same (x ∷ xs) (y ∷ ys) same =
    let rest = take_same xs ys (λ i h. same (suc i) (omega arith)) in
    let first : x ≡ y = cc (same 0 (omega arith)) in rw (first, rest) refl

-- Where the parser returns from a text shorter than 2^32, a beginning of the text spells a value,
-- in the wider sense of Parser/Spells.antt; its strings have fewer than 2^31 characters, and its
-- integers are below 2^63 in absolute value; the cursor stands before the rest; the pointer is to
-- objects that make up this value, all allocated by this call; and the objects that were there are
-- what they were.
pub parse_bencoded_string-Spells :
    (to_parse : Bytes) (w : World) (p : Ptr) (w' : World)
    → length to_parse < 2 ^ 32
    → parse_bencoded_string to_parse w ≡ ok (p, w')
    → (v : Value) × (c : Bytes) × (rest : Bytes) × (to_parse ≡ c ++ rest)
      × Spells v c
      × Fits v
      × Sees rest w'.parser
      × (p ≡ next w.memory)
      × Denotes w'.memory p p v
      × (take p w'.memory.heap ≡ w.memory.heap)
unfolding parse_bencoded_string Took
parse_bencoded_string-Spells to_parse w p w' small e =
    let found = rw e at (
      parse_arbitrary-Took (enough_fuel to_parse) to_parse (start to_parse w)
        (record { ahead = refl; small = small })) in
    let (c, rest, split, sees, (v, spelt, fits, at, same)) = found in
    (
      v,
      c,
      rest,
      split,
      spelt,
      fits,
      sees,
      at,
      rw (same, at) (build-Denotes v w.memory),
      rw (same, at) (take_same _ w.memory.heap (build-frame v w.memory)),
    )

-- The parser reads every text of the grammar of Parser/Spells.antt whose value is readable, whatever
-- follows it, where the whole is shorter than 2^32 and the lengths collected leave room: it returns a
-- pointer to objects that make up the value, all allocated by this call; the cursor then stands
-- before what follows; and every field called "length", at any depth, has been added to the
-- collected length.
pub parse_bencoded_string-Reads :
    (v : Value) (c rest : Bytes) (n : ℕ) (w : World)
    → Spells v c
    → IsReadable v
    → length (c ++ rest) < 2 ^ 32
    → get_collected_length w ≡ pos n
    → n + total_length v < 2 ^ 63
    → (w' : World) × (parse_bencoded_string (c ++ rest) w ≡ ok (next w.memory, w'))
      × Denotes w'.memory (next w.memory) (next w.memory) v
      × Sees rest w'.parser
      × (get_collected_length w' ≡ pos (n + total_length v))
unfolding parse_bencoded_string get_collected_length
parse_bencoded_string-Reads v c rest n w spelt fits small collected room =
    let run =
      parse_arbitrary-Reads (enough_fuel (c ++ rest)) n rest (start (c ++ rest) w) spelt fits
        (record {
          sees = record { ahead = refl; small = small };
          collected = collected;
          small = room;
        })
        (omega (arith, length-append c rest)) in
    (run.after, run.returns, rw run.same (build-Denotes v w.memory), run.sees, run.collected)

-- Where the parser returns from a text shorter than 2^32, every pointer that `getList` and `getByKey`
-- lead to from the one returned is to a live object of one of the four types, never a null object:
-- the accessor for its type gives its value, and the three others throw a BTypeException.
pub parse_bencoded_string-HasType :
    (to_parse : Bytes) (w : World) (p : Ptr) (w' : World) (r : Ptr)
    → length to_parse < 2 ^ 32
    → parse_bencoded_string to_parse w ≡ ok (p, w')
    → Reaches w'.memory p r
    → HasType w'.memory r
parse_bencoded_string-HasType to_parse w p w' r small e reaches =
    let (v, _, _, _, _, _, _, _, made, _) = parse_bencoded_string-Spells to_parse w p w' small e in
    Reaches-HasType w'.memory p p r v made reaches
