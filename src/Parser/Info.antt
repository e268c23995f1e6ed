-- ===== src/Parser/Info.antt =====
-- What is collected as the info dictionary.
use btor.Base.{
  ℕ, ◌≡◌, refl, ap, Bool, true, false, [], ◌∷◌, ◌++◌, ◌∙◌, append_assoc, append-nil, inl, inr,
}
use btor.Base.{Bytes, bytes_eq, codes, if◌then◌else◌, Bool-cases}
use btor.Bencode.{
  Value, Items, Fields, int, str, list, dict, no_items, item, no_fields, field, encode,
  encode_items, encode_fields, encode_string, encode_int,
}
use btor.Cursor.{BParser, taken}
use btor.Cursor.Sees.{advance}
use btor.Parser.Scan.{mark, settle, scan, scan_items, scan_fields}
use btor.Parser.{is_info, is_length}

-- No key is "info", at any depth.
unfoldable mutual
  pub HasNoInfo : Value → Type 0
  HasNoInfo (int i) = Unit {0}
  HasNoInfo (str b) = Unit {0}
  HasNoInfo (list xs) = ItemsNoInfo xs
  HasNoInfo (dict fs) = FieldsNoInfo fs

  pub ItemsNoInfo : Items → Type 0
  ItemsNoInfo no_items = Unit {0}
  ItemsNoInfo (item v xs) = HasNoInfo v × ItemsNoInfo xs

  pub FieldsNoInfo : Fields → Type 0
  FieldsNoInfo no_fields = Unit {0}
  FieldsNoInfo (field k v fs) = (is_info k ≡ false) × HasNoInfo v × FieldsNoInfo fs

-- From `p` to `p'` the text `bs` is read, and collected exactly if the flag is `b`, as it stays.
pub record Gathers (b : Bool) (bs : Bytes) (p p' : BParser) : Type 0 where
  pub info : p'.collected_info_dict ≡ p.collected_info_dict ++ (if b then bs else [])
  pub flag : p'.collect_info_dict ≡ b

Gathers-append :
    (b : Bool) (xs ys : Bytes) {p q r : BParser}
    → Gathers b xs p q
    → Gathers b ys q r
    → Gathers b (xs ++ ys) p r
Gathers-append true xs ys g h = record { info = h.info ∙ rw (g.info, append_assoc); flag = h.flag }
Gathers-append false xs ys g h = record { info = h.info ∙ append-nil _ ∙ g.info; flag = h.flag }

Gathers-nil : (b : Bool) (p : BParser) → p.collect_info_dict ≡ b → Gathers b [] p p
Gathers-nil true p h = record { info = rw append-nil; flag = h }
Gathers-nil false p h = record { info = rw append-nil; flag = h }

Gathers-taken :
    (b : Bool) (c : ℕ) (p : BParser) → p.collect_info_dict ≡ b → Gathers b (c ∷ []) p (taken c p)
unfolding taken
Gathers-taken true c p h = record { info = rw h; flag = h }
Gathers-taken false c p h = record { info = rw (h, append-nil); flag = h }

Gathers-advance :
    (b : Bool) (cs : Bytes) (p : BParser) → p.collect_info_dict ≡ b → Gathers b cs p (advance cs p)
unfolding advance
Gathers-advance b [] p h = Gathers-nil b p h
Gathers-advance b (c ∷ cs) p h =
    let g = Gathers-taken b c p h in
    Gathers-append b (c ∷ []) cs g (Gathers-advance b cs (taken c p) g.flag)

Gathers-settle :
    (b : Bool) (k : Bytes) (v : _) {bs : Bytes} {p p' : BParser}
    → is_info k ≡ false
    → Gathers b bs p p'
    → Gathers b bs p (settle k v p')
Gathers-settle b k v e g = elim (Bool-cases (is_length k)) [
  | inl e' ↦ rw (e, e') (record { info = g.info; flag = g.flag })
  | inr e' ↦ rw (e, e') g
]

mutual
  unfolding encode scan HasNoInfo

  Gathers-scan :
      (v : Value) (b : Bool) (p : BParser)
      → HasNoInfo v
      → p.collect_info_dict ≡ b
      → Gathers b (encode v) p (scan v p)
  Gathers-scan (int i) b p none h = Gathers-advance b (b'i' ∷ encode_int i) p h
  Gathers-scan (str t) b p none h = Gathers-advance b (encode_string t) p h
  Gathers-scan (list xs) b p none h =
      let g₁ = Gathers-advance b (b'l' ∷ []) p h in
      let g₂ = Gathers-items xs b (advance (b'l' ∷ []) p) none g₁.flag in
      Gathers-append b (b'l' ∷ []) (encode_items xs ++ b'e' ∷ []) g₁ (
        Gathers-append b (encode_items xs) (b'e' ∷ []) g₂
          (Gathers-advance b (b'e' ∷ []) (scan_items xs (advance (b'l' ∷ []) p)) g₂.flag))
  Gathers-scan (dict fs) b p none h =
      let g₁ = Gathers-advance b (b'd' ∷ []) p h in
      let g₂ = Gathers-fields fs b (advance (b'd' ∷ []) p) none g₁.flag in
      Gathers-append b (b'd' ∷ []) (encode_fields fs ++ b'e' ∷ []) g₁ (
        Gathers-append b (encode_fields fs) (b'e' ∷ []) g₂
          (Gathers-advance b (b'e' ∷ []) (scan_fields fs (advance (b'd' ∷ []) p)) g₂.flag))

  Gathers-items :
      (xs : Items) (b : Bool) (p : BParser)
      → ItemsNoInfo xs
      → p.collect_info_dict ≡ b
      → Gathers b (encode_items xs) p (scan_items xs p)
  Gathers-items no_items b p none h = Gathers-nil b p h
  Gathers-items (item v xs) b p none h =
      let g = Gathers-scan v b p none.0 h in
      Gathers-append b (encode v) (encode_items xs) g (Gathers-items xs b (scan v p) none.1 g.flag)

  pub Gathers-fields :
      (fs : Fields) (b : Bool) (p : BParser)
      → FieldsNoInfo fs
      → p.collect_info_dict ≡ b
      → Gathers b (encode_fields fs) p (scan_fields fs p)
  Gathers-fields no_fields b p none h = Gathers-nil b p h
  Gathers-fields (field k v fs) b p none h =
      let g₁ = Gathers-advance b (encode_string k) p h in
      let same : mark k (advance (encode_string k) p) ≡ advance (encode_string k) p = rw none.0 in
      let g₂ = Gathers-scan v b (advance (encode_string k) p) none.1 g₁.flag in
      let g₃ = Gathers-settle b k v none.0 g₂ in
      rw same (
        Gathers-append b (encode_string k) (encode v ++ encode_fields fs) g₁ (
          Gathers-append b (encode v) (encode_fields fs) g₃ (
            Gathers-fields fs b (settle k v (scan v (advance (encode_string k) p))) none.2
              g₃.flag)))

-- One sequence of fields behind another.
unfoldable pub join : Fields → Fields → Fields
join no_fields gs = gs
join (field k v fs) gs = field k v (join fs gs)

scan_fields-join :
    (fs gs : Fields) (p : BParser) → scan_fields (join fs gs) p ≡ scan_fields gs (scan_fields fs p)
unfolding join scan
scan_fields-join no_fields gs p = refl
scan_fields-join (field k v fs) gs p =
    scan_fields-join fs gs (settle k v (scan v (mark k (advance (encode_string k) p))))

-- A dictionary with one field "info", and no other such key at any depth: the print of that
-- field's value is collected, and nothing else.
pub scan-info :
    (before : Fields) (v : Value) (behind : Fields) (p : BParser)
    → FieldsNoInfo before
    → HasNoInfo v
    → FieldsNoInfo behind
    → p.collect_info_dict ≡ false
    → (scan (dict (join before (field (codes "info") v behind))) p).collected_info_dict
      ≡ p.collected_info_dict ++ encode v
unfolding scan bytes_eq
scan-info before v behind p nb nv na h =
    let p₁ = advance (b'd' ∷ []) p in
    let g₁ = Gathers-advance false (b'd' ∷ []) p h in
    let p₂ = scan_fields before p₁ in
    let g₂ = Gathers-fields before false p₁ nb g₁.flag in
    let key = encode_string (codes "info") in
    let g₃ = Gathers-advance false key p₂ g₂.flag in
    let p₃ = record (advance key p₂) { collect_info_dict = true } in
    let g₄ = Gathers-scan v true p₃ nv refl in
    let p₄ = record (scan v p₃) { collect_info_dict = false } in
    let g₅ = Gathers-fields behind false p₄ na refl in
    let g₆ = Gathers-advance false (b'e' ∷ []) (scan_fields behind p₄) g₅.flag in
    let until_info = g₃.info ∙ rw append-nil (g₂.info ∙ rw append-nil (g₁.info ∙ append-nil _)) in
    rw (scan_fields-join before (field (codes "info") v behind) p₁) (
      g₆.info
      ∙ rw append-nil (g₅.info ∙ rw append-nil (g₄.info ∙ ap (λ t. t ++ encode v) until_info)))
