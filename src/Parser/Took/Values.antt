-- ===== src/Parser/Took/Values.antt =====
-- Lists, dictionaries and the switch, by what they take from the text: one induction over the fuel.
use btor.Base.{ℕ, zero, suc, true, false, ◌≡◌, refl, sym, [], ◌∷◌, ◌∙◌, inl, inr}
use btor.Base.{Bytes, Bool-cases, ◌==◌, ==_iff, length, ltb, le→ltb_false}
use btor.Base.Decimal.{is_digit}
use btor.Bencode.{Items, Fields, list, dict, no_items, item, no_fields, field, IsCons, HasField}
use btor.Cursor.Sees.{Sees}
use btor.Cursor.{World, Cmd}
use btor.Memory.Amend.{Open, Open-amend, get_new-Open}
use btor.Memory.Build.{build, build_items, build_fields, created, pushed, added, Open-build}
use btor.Memory.{Memory, next}
use btor.Object.Dict.{Ptr}
use btor.Object.{b_list, b_dict, of_kind, push_back, add_key_value}
use btor.Parser.Scan.{Sees-mark}
use btor.Parser.Spells.{
  Fits, ItemsFit, FieldsFit, SpellsItems, SpellsFields, a_list, a_dictionary, no_more, an_item,
  no_others, a_field,
}
use btor.Parser.Steps.{push_back-Open, add_key_value-Open, before_value-mark, parse_arbitrary-Sees}
use btor.Parser.Took.Scalars.{TextRead, Made, extract_string-Took, parse_string-Took}
use btor.Parser.Took.Integers.{parse_integer-Took}
use btor.Parser.Took.Settled.{Took-after_value}
use btor.Parser.Took.{
  Reading, Took, Took-weaken, Took-here, Took-out_of_fuel, Took-undefined, Took-throw, Took-bind,
  Took-consume, Took-peek, Took-assert, Took-alloc, Took-update, ended,
}
use btor.Parser.{
  dispatch, parse_arbitrary, parse_list, list_loop, parse_dictionary, dictionary_loop,
}

-- A loop stops before an `e`, with its container filled.
abbrev Stopped : Bytes → Type 0
Stopped rest = (more : Bytes) × (rest ≡ b'e' ∷ more)

abbrev ItemsRead : Ptr → Memory → Reading (Unit {0})
ItemsRead p m₀ u c rest m =
    (xs : Items) × SpellsItems xs c
    × ItemsFit xs
    × IsCons xs
    × Stopped rest
    × (m ≡ build_items xs p m₀)

abbrev FieldsRead : Ptr → Memory → Reading (Unit {0})
FieldsRead p m₀ u c rest m =
    (fs : Fields) × SpellsFields fs c
    × FieldsFit fs
    × HasField fs
    × Stopped rest
    × (m ≡ build_fields fs p m₀)

-- The switch, over what the functions that it calls take.
dispatch-Took :
    (Q : Reading Ptr) (s : Bytes) (ch : ℕ) (i l d t : Cmd Ptr) (w : World)
    → Took Q s (i w)
    → Took Q s (l w)
    → Took Q s (d w)
    → (is_digit ch ≡ true → Took Q s (t w))
    → Took Q s (dispatch ch i l d t w)
unfolding dispatch
dispatch-Took Q s ch i l d t w an_i an_l a_d digits = elim (Bool-cases (ch == b'i')) [
  | inl e ↦ rw e an_i
  | inr e ↦ elim (Bool-cases (ch == b'l')) [
    | inl e' ↦ rw (e, e') an_l
    | inr e' ↦ elim (Bool-cases (ch == b'd')) [
      | inl e'' ↦ rw (e, e', e'') a_d
      | inr e'' ↦ elim (Bool-cases (is_digit ch)) [
        | inl digit ↦ rw (e, e', e'', digit) (digits digit)
        | inr other ↦ rw (e, e', e'', other) (Took-throw Q s ch w)
      ]
    ]
  ]
]

mutual
  unfolding parse_arbitrary build Fits

  value-Took :
      (f : ℕ) (s : Bytes) (w : World)
      → Sees s w.parser
      → Took (Made w.memory) s (parse_arbitrary f w)
  value-Took zero s w sees = Took-out_of_fuel _ s
  value-Took (suc f) [] w sees =
      let over : ltb w.parser.cursor (length w.parser.parse_buf) ≡ false =
        le→ltb_false _ _ (ended w sees) in
      rw over (Took-undefined _ [])
  value-Took (suc f) (c ∷ rest) w sees =
      let s = c ∷ rest in
      rw (parse_arbitrary-Sees f c w sees) (
        dispatch-Took (Made w.memory) s c _ _ _ _ w (parse_integer-Took f s w sees)
          (list-Took f s w sees) (dict-Took f s w sees)
          (λ digit. parse_string-Took f s w digit sees))

  list-Took :
      (f : ℕ) (s : Bytes) (w : World) → Sees s w.parser → Took (Made w.memory) s (parse_list f w)
  list-Took zero s w sees = Took-out_of_fuel _ s
  list-Took (suc f) s w sees =
      let m₁ = created (of_kind b_list) w.memory in
      Took-consume (Made w.memory) s w sees _ (λ ch rest e sees₁.
        Took-assert _ rest _ sees₁ b'l' ch _ (λ is_l. Took-alloc _ rest _ sees₁ (of_kind b_list) _ (
          Took-bind (ItemsRead (next w.memory) m₁) _ rest _ _
            (items-Took f (next w.memory) rest _ (get_new-Open (of_kind b_list) w.memory) sees₁)
            (λ u c rest' w' e' sees' (xs, spelt, fits, cons, (more, stop), same).
              Took-consume _ rest' w' sees' _ (λ ch' rest'' e'' sees''.
                let is_e : ch' ≡ b'e' = cc (sym stop ∙ e'') in
                Took-here _ rest'' (next w.memory) _ sees''
                  (list xs, rw (is_l, is_e) (a_list cons spelt), fits, refl, same))))))

  items-Took :
      (f : ℕ) (p : Ptr) (s : Bytes) (w : World)
      → Open b_list p w.memory
      → Sees s w.parser
      → Took (ItemsRead p w.memory) s (list_loop f p w)
  items-Took zero p s w here sees = Took-out_of_fuel _ s
  items-Took (suc f) p s w here sees =
      Took-bind (Made w.memory) (ItemsRead p w.memory) s _ _ (value-Took f s w sees)
        (λ q c rest w' e sees' (v, spelt, fits, at, same).
          let here' : Open b_list p w'.memory = rw same (Open-build v here) in
          Took-update _ rest w' sees' b_list p (push_back q) (pushed q) _ here'
            (push_back-Open p q w' here')
            (Took-peek _ rest _ sees' _ (λ ch more e'. elim (Bool-cases (ch == b'e')) [
              | inl d ↦ rw d (
                  Took-here _ rest tt _ sees' (
                    item v no_items,
                    an_item spelt no_more,
                    (fits, tt),
                    tt,
                    (more, rw (sym ((==_iff ch b'e').0 d)) e'),
                    rw (at, same) refl,
                  ))
              | inr d ↦ rw d (
                  Took-weaken (ItemsRead p _) _ rest _
                    (items-Took f p rest _ (Open-amend here' (pushed q) (λ o. refl)) sees')
                    (λ u c' rest' m e'' (xs, spelts, others, cons, stop, same'). (
                      item v xs,
                      an_item spelt spelts,
                      (fits, others),
                      tt,
                      stop,
                      same' ∙ rw (at, same) refl,
                    )))
            ])))

  dict-Took :
      (f : ℕ) (s : Bytes) (w : World)
      → Sees s w.parser
      → Took (Made w.memory) s (parse_dictionary f w)
  dict-Took zero s w sees = Took-out_of_fuel _ s
  dict-Took (suc f) s w sees =
      let m₁ = created (of_kind b_dict) w.memory in
      Took-consume (Made w.memory) s w sees _ (λ ch rest e sees₁.
        Took-assert _ rest _ sees₁ b'd' ch _ (λ is_d. Took-alloc _ rest _ sees₁ (of_kind b_dict) _ (
          Took-bind (FieldsRead (next w.memory) m₁) _ rest _ _
            (fields-Took f (next w.memory) rest _ (get_new-Open (of_kind b_dict) w.memory) sees₁)
            (λ u c rest' w' e' sees' (fs, spelt, fits, has, (more, stop), same).
              Took-consume _ rest' w' sees' _ (λ ch' rest'' e'' sees''.
                let is_e : ch' ≡ b'e' = cc (sym stop ∙ e'') in
                Took-here _ rest'' (next w.memory) _ sees''
                  (dict fs, rw (is_d, is_e) (a_dictionary has spelt), fits, refl, same))))))

  fields-Took :
      (f : ℕ) (p : Ptr) (s : Bytes) (w : World)
      → Open b_dict p w.memory
      → Sees s w.parser
      → Took (FieldsRead p w.memory) s (dictionary_loop f p w)
  fields-Took zero p s w here sees = Took-out_of_fuel _ s
  fields-Took (suc f) p s w here sees =
      Took-bind (TextRead w.memory) (FieldsRead p w.memory) s _ _ (extract_string-Took f s w sees)
        (λ k c rest w₁ e sees₁ (key, short, same₁). rw (before_value-mark k w₁) (
          Took-bind (Made w₁.memory) _ rest _ _ (value-Took f rest _ (Sees-mark k sees₁))
            (λ q d rest₂ w₂ e₂ sees₂ (v, spelt, fits, at, same₂).
              Took-after_value _ rest₂ k q w₂ _ sees₂ (λ w₃ sees₃ same₃.
                let here₃ : Open b_dict p w₃.memory =
                  rw (same₃, same₂, same₁) (Open-build v here) in
                Took-update _ rest₂ w₃ sees₃ b_dict p (add_key_value k q) (added k q) _ here₃
                  (add_key_value-Open p k q w₃ here₃)
                  (Took-peek _ rest₂ _ sees₃ _ (λ ch more e'. elim (Bool-cases (ch == b'e')) [
                    | inl stop ↦ rw stop (
                        Took-here _ rest₂ tt _ sees₃ (
                          field k v no_fields,
                          a_field key spelt no_others,
                          (short, fits, tt),
                          tt,
                          (more, rw (sym ((==_iff ch b'e').0 stop)) e'),
                          rw (at, same₃, same₂, same₁) refl,
                        ))
                    | inr on ↦ rw on (
                        Took-weaken (FieldsRead p _) _ rest₂ _
                          (fields-Took f p rest₂ _ (Open-amend here₃ (added k q) (λ o. refl)) sees₃)
                          (λ u c' rest' m e'' (fs, spelts, others, has, stopped, same). (
                            field k v fs,
                            a_field key spelt spelts,
                            (short, fits, others),
                            tt,
                            stopped,
                            same ∙ rw (at, same₃, same₂, same₁) refl,
                          )))
                  ]))))))

pub parse_arbitrary-Took :
    (f : ℕ) (s : Bytes) (w : World) → Sees s w.parser → Took (Made w.memory) s (parse_arbitrary f w)
parse_arbitrary-Took = value-Took
