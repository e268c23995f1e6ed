-- ===== src/Cursor/Sees.antt =====
-- What a cursor has before it, and the parser after a run of characters has been taken.
use btor.Base.{ℕ, suc, ◌^◌, ◌<◌, ◌≡◌, refl, ap, true, [], ◌∷◌, ◌++◌, arith}
use btor.Base.{Bytes, length, drop, ltb, lt→ltb, get_elem?-drop, drop-suc, length-drop}
use btor.Base.Outcome.{ok}
use btor.Cursor.{BParser, World, taken, next_cursor, consume_char, peek_char}

-- `rest` is what is left to read, and the buffer is short enough for an `unsigned int`.
pub record Sees (rest : Bytes) (p : BParser) : Type 0 where
  pub ahead : drop p.cursor p.parse_buf ≡ rest
  pub small : length p.parse_buf < 2 ^ 32

-- The parser after these characters have been taken.
unfoldable pub advance : Bytes → BParser → BParser
advance [] p = p
advance (c ∷ cs) p = advance cs (taken c p)

abbrev pub eat : Bytes → World → World
eat cs w = record w { parser = advance cs w.parser }

-- The state in which `parseBencodedString` starts on a text.
abbrev pub start : Bytes → World → World
start to_parse w = record w { parser = record w.parser { cursor = 0; parse_buf = to_parse } }

pub advance-append :
    (xs ys : Bytes) (p : BParser) → advance (xs ++ ys) p ≡ advance ys (advance xs p)
unfolding advance
advance-append [] ys p = refl
advance-append (x ∷ xs) ys p = advance-append xs ys (taken x p)

module _ {c : ℕ} {rest : Bytes} {p : BParser} (s : Sees (c ∷ rest) p) where
  pub cursor_lt : p.cursor < length p.parse_buf
  cursor_lt = omega (arith, ap length s.ahead, length-drop p.cursor p.parse_buf)

  pub cursor_next : next_cursor p.cursor ≡ suc p.cursor
  cursor_next = omega (arith, cursor_lt, s.small)

  pub Sees-taken : Sees rest (taken c p)
  unfolding taken
  Sees-taken = record {
    ahead = rw cursor_next (drop-suc p.cursor p.parse_buf rest c s.ahead);
    small = s.small;
  }

pub Sees-advance :
    (xs : Bytes) {rest : Bytes} {p : BParser} → Sees (xs ++ rest) p → Sees rest (advance xs p)
unfolding advance
Sees-advance [] s = s
Sees-advance (x ∷ xs) s = Sees-advance xs (Sees-taken s)

module _ (w : World) {c : ℕ} {rest : Bytes} (s : Sees (c ∷ rest) w.parser) where
  pub consume-Sees : consume_char w ≡ ok (c, record w { parser = taken c w.parser })
  unfolding consume_char
  consume-Sees = rw (get_elem?-drop w.parser.cursor w.parser.parse_buf rest c s.ahead)

  pub peek-Sees : peek_char w ≡ ok (c, w)
  unfolding peek_char
  peek-Sees = rw (get_elem?-drop w.parser.cursor w.parser.parse_buf rest c s.ahead)

  pub more-Sees : ltb w.parser.cursor (length w.parser.parse_buf) ≡ true
  more-Sees = lt→ltb _ _ (cursor_lt s)
