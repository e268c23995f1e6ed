-- ===== src/Parser/Scan.antt =====
-- What reading a value does to the parser's own fields: the cursor, and what is collected.
use btor.Base.{true, false, [], ◌∷◌, ◌++◌, append_assoc, inl, inr}
use btor.Base.{Bytes, if◌then◌else◌, Bool-cases}
use btor.Base.Int.{pos, ◌+ℤ◌}
use btor.Bencode.{
  Value, Items, Fields, int, str, list, dict, no_items, item, no_fields, field, encode,
  encode_items, encode_fields, encode_string, encode_int, own_length,
}
use btor.Cursor.{BParser}
use btor.Cursor.Sees.{Sees, Sees-advance, advance}
use btor.Parser.{is_info, is_length}

-- the tests on a key before and after its value
abbrev pub mark : Bytes → BParser → BParser
mark k p = if is_info k then record p { collect_info_dict = true } else p

abbrev pub settle : Bytes → Value → BParser → BParser
settle k v p =
    if is_info k
    then record p { collect_info_dict = false }
    else if is_length k
    then record p { collected_length = p.collected_length +ℤ pos (own_length k v) }
    else p

unfoldable mutual
  pub scan : Value → BParser → BParser
  scan (int i) p = advance (b'i' ∷ encode_int i) p
  scan (str b) p = advance (encode_string b) p
  scan (list xs) p = advance (b'e' ∷ []) (scan_items xs (advance (b'l' ∷ []) p))
  scan (dict fs) p = advance (b'e' ∷ []) (scan_fields fs (advance (b'd' ∷ []) p))

  pub scan_items : Items → BParser → BParser
  scan_items no_items p = p
  scan_items (item v xs) p = scan_items xs (scan v p)

  pub scan_fields : Fields → BParser → BParser
  scan_fields no_fields p = p
  scan_fields (field k v fs) p =
      scan_fields fs (settle k v (scan v (mark k (advance (encode_string k) p))))

pub Sees-mark : (k : Bytes) {rest : Bytes} {p : BParser} → Sees rest p → Sees rest (mark k p)
Sees-mark k s = elim (Bool-cases (is_info k)) [
  | inl e ↦ rw e (record { ahead = s.ahead; small = s.small })
  | inr e ↦ rw e s
]

pub Sees-settle :
    (k : Bytes) (v : Value) {rest : Bytes} {p : BParser} → Sees rest p → Sees rest (settle k v p)
Sees-settle k v s = elim (Bool-cases (is_info k)) [
  | inl e ↦ rw e (record { ahead = s.ahead; small = s.small })
  | inr e ↦ elim (Bool-cases (is_length k)) [
    | inl e' ↦ rw (e, e') (record { ahead = s.ahead; small = s.small })
    | inr e' ↦ rw (e, e') s
  ]
]

mutual
  unfolding scan encode

  Sees-scan :
      (v : Value) (rest : Bytes) (p : BParser) → Sees (encode v ++ rest) p → Sees rest (scan v p)
  Sees-scan (int i) rest p s = Sees-advance (b'i' ∷ encode_int i) s
  Sees-scan (str b) rest p s = Sees-advance (encode_string b) s
  Sees-scan (list xs) rest p s = Sees-advance (b'e' ∷ []) (
      Sees-scan_items xs (b'e' ∷ rest) (advance (b'l' ∷ []) p)
        (Sees-advance (b'l' ∷ []) (rw append_assoc at s)))
  Sees-scan (dict fs) rest p s = Sees-advance (b'e' ∷ []) (
      Sees-scan_fields fs (b'e' ∷ rest) (advance (b'd' ∷ []) p)
        (Sees-advance (b'd' ∷ []) (rw append_assoc at s)))

  pub Sees-scan_items :
      (xs : Items) (rest : Bytes) (p : BParser)
      → Sees (encode_items xs ++ rest) p
      → Sees rest (scan_items xs p)
  Sees-scan_items no_items rest p s = s
  Sees-scan_items (item v xs) rest p s =
      Sees-scan_items xs rest (scan v p)
        (Sees-scan v (encode_items xs ++ rest) p (rw append_assoc at s))

  pub Sees-scan_fields :
      (fs : Fields) (rest : Bytes) (p : BParser)
      → Sees (encode_fields fs ++ rest) p
      → Sees rest (scan_fields fs p)
  Sees-scan_fields no_fields rest p s = s
  Sees-scan_fields (field k v fs) rest p s =
      let p' = mark k (advance (encode_string k) p) in
      Sees-scan_fields fs rest (settle k v (scan v p')) (
        Sees-settle k v (
          Sees-scan v (encode_fields fs ++ rest) p'
            (Sees-mark k (Sees-advance (encode_string k) (simp append_assoc at s)))))

-- Reading a value leaves what follows it.
pub scan-Sees :
    (v : Value) (rest : Bytes) (p : BParser) → Sees (encode v ++ rest) p → Sees rest (scan v p)
scan-Sees = Sees-scan
