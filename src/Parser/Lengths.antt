-- ===== src/Parser/Lengths.antt =====
-- `collectedLength` after a value: the sum of the fields called "length" is added.
use btor.Base.{ℕ, ◌+◌, ◌≡◌, refl, ap, true, false, [], ◌∷◌, ◌∙◌, arith, inl, inr}
use btor.Base.{Bytes, codes, bytes_eq, bytes_eq→eq, Bool-cases}
use btor.Base.Int.{add_pos, pos}
use btor.Bencode.{
  Value, Items, Fields, int, str, list, dict, no_items, item, no_fields, field, encode_string,
  encode_int, own_length, total_length, total_items, total_fields,
}
use btor.Cursor.{BParser, taken}
use btor.Cursor.Sees.{advance}
use btor.Parser.Scan.{mark, settle, scan, scan_items, scan_fields}
use btor.Parser.{is_info, is_length}

-- `p` has collected this length.
abbrev pub Collected : ℕ → BParser → Type 0
Collected n p = p.collected_length ≡ pos n

pub Collected-advance :
    (cs : Bytes) {n : ℕ} (p : BParser) → Collected n p → Collected n (advance cs p)
unfolding advance taken
Collected-advance [] p h = h
Collected-advance (c ∷ cs) p h = Collected-advance cs (taken c p) h

pub Collected-mark : (k : Bytes) {n : ℕ} (p : BParser) → Collected n p → Collected n (mark k p)
Collected-mark k p h = elim (Bool-cases (is_info k)) [ inl e ↦ rw e h | inr e ↦ rw e h ]

info-ne-length : (k : Bytes) → is_info k ≡ true → is_length k ≡ false
unfolding bytes_eq
info-ne-length k e = rw (bytes_eq→eq k (codes "info") e)

own_length-zero : (k : Bytes) (v : Value) → is_length k ≡ false → own_length k v ≡ 0
own_length-zero k (int (pos n)) e = rw e
own_length-zero k _ e = refl

pub Collected-settle :
    (k : Bytes) (v : Value) (n : ℕ) (p : BParser)
    → Collected n p
    → Collected (n + own_length k v) (settle k v p)
Collected-settle k v n p h = elim (Bool-cases (is_info k)) [
  | inl e ↦ rw (e, own_length-zero k v (info-ne-length k e)) (h ∙ ap pos (omega arith))
  | inr e ↦ elim (Bool-cases (is_length k)) [
    | inl e' ↦ rw (e, e', h) (add_pos n (own_length k v))
    | inr e' ↦ rw (e, e', own_length-zero k v e') (h ∙ ap pos (omega arith))
  ]
]

mutual
  unfolding scan total_length

  Collected-scan :
      (v : Value) (n : ℕ) (p : BParser) → Collected n p → Collected (n + total_length v) (scan v p)
  Collected-scan (int i) n p h = Collected-advance (b'i' ∷ encode_int i) p h ∙ ap pos (omega arith)
  Collected-scan (str b) n p h = Collected-advance (encode_string b) p h ∙ ap pos (omega arith)
  Collected-scan (list xs) n p h =
      Collected-advance (b'e' ∷ []) (scan_items xs (advance (b'l' ∷ []) p))
        (Collected-scan_items xs n (advance (b'l' ∷ []) p) (Collected-advance (b'l' ∷ []) p h))
  Collected-scan (dict fs) n p h =
      Collected-advance (b'e' ∷ []) (scan_fields fs (advance (b'd' ∷ []) p))
        (Collected-scan_fields fs n (advance (b'd' ∷ []) p) (Collected-advance (b'd' ∷ []) p h))

  Collected-scan_items :
      (xs : Items) (n : ℕ) (p : BParser)
      → Collected n p
      → Collected (n + total_items xs) (scan_items xs p)
  Collected-scan_items no_items n p h = h ∙ ap pos (omega arith)
  Collected-scan_items (item v xs) n p h =
      Collected-scan_items xs (n + total_length v) (scan v p) (Collected-scan v n p h)
      ∙ ap pos (omega arith)

  Collected-scan_fields :
      (fs : Fields) (n : ℕ) (p : BParser)
      → Collected n p
      → Collected (n + total_fields fs) (scan_fields fs p)
  Collected-scan_fields no_fields n p h = h ∙ ap pos (omega arith)
  Collected-scan_fields (field k v fs) n p h =
      let p₁ = advance (encode_string k) p in
      let p₂ = scan v (mark k p₁) in
      let h₂ : Collected (n + total_length v) p₂ =
        Collected-scan v n (mark k p₁)
          (Collected-mark k p₁ (Collected-advance (encode_string k) p h)) in
      Collected-scan_fields fs (n + total_length v + own_length k v) (settle k v p₂)
        (Collected-settle k v (n + total_length v) p₂ h₂)
      ∙ ap pos (omega arith)

-- Reading a value adds the total of its fields called "length".
pub scan-Collected :
    (v : Value) (n : ℕ) (p : BParser) → Collected n p → Collected (n + total_length v) (scan v p)
scan-Collected = Collected-scan
