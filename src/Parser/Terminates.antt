-- ===== src/Parser/Terminates.antt =====
-- The recursion of the parser ends: one induction on the fuel.
use btor.Base.{ℕ, zero, suc, ◌+◌, ◌*◌, ◌<◌, ◌^◌, ◌≢◌, refl, arith, inl, inr}
use btor.Base.{Bytes, length, ◌==◌, Bool-cases, ltb}
use btor.Base.Decimal.{is_digit}
use btor.Base.Int.{ℤ, ◌+ℤ◌}
use btor.Base.Outcome.{undefined, out_of_fuel}
use btor.Cursor.{World, Cmd}
use btor.Object.Dict.{Ptr}
use btor.Object.{
  BObject, b_list, b_dict, b_integer, of_kind, is_kind, push_back, add_key_value, get_int,
}
use btor.Parser.Ends.{extract_string-Ends, parse_string-Ends, parse_integer-Ends}
use btor.Parser.Fuel.{
  size, left, InBuffer, Ends, Ends-bind, Ends-weaken, Ends-here, Ends-assert, Ends-throw,
  Ends-alloc, Ends-peek, Ends-consume, Ends-update, Ends-query, left-Reaches,
}
use btor.Parser.{
  is_info, is_length, before_value, after_value, add_length, fits_int64, dispatch, parse_arbitrary,
  parse_list, list_loop, parse_dictionary, dictionary_loop, parse_bencoded_string,
}

push_back-ne : (q : Ptr) (o : BObject) → push_back q o ≢ out_of_fuel
unfolding push_back
push_back-ne q o = elim (Bool-cases (is_kind o.kind b_list)) [
  | inl e ↦ rw e (cc)
  | inr e ↦ rw e (cc)
]

add_key_value-ne : (k : Bytes) (q : Ptr) (o : BObject) → add_key_value k q o ≢ out_of_fuel
unfolding add_key_value
add_key_value-ne k q o = elim (Bool-cases (is_kind o.kind b_dict)) [
  | inl e ↦ rw e (cc)
  | inr e ↦ rw e (cc)
]

get_int-ne : (o : BObject) → get_int o ≢ out_of_fuel
unfolding get_int
get_int-ne o = elim (Bool-cases (is_kind o.kind b_integer)) [
  | inl e ↦ rw e (cc)
  | inr e ↦ rw e (cc)
]

before_value-Ends : (k : Bytes) (w : World) → InBuffer w → Ends 0 w (before_value k w)
unfolding before_value Ends
before_value-Ends k w here = elim (Bool-cases (is_info k)) [
  | inl e ↦ rw e (refl, omega arith, here)
  | inr e ↦ rw e (refl, omega arith, here)
]

add_length-Ends : (n : ℤ) (w : World) → InBuffer w → Ends 0 w (add_length n w)
unfolding add_length Ends
add_length-Ends n w here = elim (Bool-cases (fits_int64 (w.parser.collected_length +ℤ n))) [
  | inl e ↦ rw e (refl, omega arith, here)
  | inr e ↦ rw e tt
]

after_value-Ends : (k : Bytes) (q : Ptr) (w : World) → InBuffer w → Ends 0 w (after_value k q w)
unfolding after_value
after_value-Ends k q w here = elim (Bool-cases (is_info k)) [
  | inl e ↦ rw e (unfold Ends in (refl, omega arith, here))
  | inr e ↦ elim (Bool-cases (is_length k)) [
    | inl e' ↦
        rw (e, e')
          (Ends-bind 0 0 w _ _ (Ends-query w here q get_int get_int-ne)
            (λ n w₁ r₁. add_length-Ends n w₁ r₁.2))
    | inr e' ↦ rw (e, e') (Ends-here w here tt)
  ]
]

-- The switch ends where each of its branches does.
dispatch-Ends :
    (ch : ℕ) (i l d s : Cmd Ptr) (w : World)
    → InBuffer w
    → Ends 1 w (i w)
    → Ends 1 w (l w)
    → Ends 1 w (d w)
    → Ends 1 w (s w)
    → Ends 1 w (dispatch ch i l d s w)
unfolding dispatch
dispatch-Ends ch i l d s w here hi hl hd hs = elim (Bool-cases (ch == b'i')) [
  | inl e ↦ rw e hi
  | inr e ↦ elim (Bool-cases (ch == b'l')) [
    | inl e' ↦ rw (e, e') hl
    | inr e' ↦ elim (Bool-cases (ch == b'd')) [
      | inl e'' ↦ rw (e, e', e'') hd
      | inr e'' ↦ elim (Bool-cases (is_digit ch)) [
        | inl e₃ ↦ rw (e, e', e'', e₃) hs
        | inr e₃ ↦ rw (e, e', e'', e₃) (Ends-throw w here Ptr ch 1)
      ]
    ]
  ]
]

Ends-undefined : (A : Type 0) (k : ℕ) (w : World) → Ends {A = A} k w undefined
unfolding Ends
Ends-undefined A k w = tt

mutual
  unfolding parse_arbitrary

  arbitrary-Ends :
      (f : ℕ) (w : World) → InBuffer w → 3 * left w + 3 < f → Ends 1 w (parse_arbitrary f w)
  arbitrary-Ends zero w here h = absurd (omega arith)
  arbitrary-Ends (suc f) w here h = elim (Bool-cases (ltb w.parser.cursor (size w))) [
    | inl e ↦ rw e (
        Ends-bind 0 1 w _ _ (Ends-peek w here) (λ ch w₁ r₁.
          let less = left-Reaches 0 w w₁ r₁ in
          dispatch-Ends ch _ _ _ _ w₁ r₁.2 (parse_integer-Ends f w₁ r₁.2 (omega arith))
            (list-Ends f w₁ r₁.2 (omega arith)) (dictionary-Ends f w₁ r₁.2 (omega arith))
            (parse_string-Ends f w₁ r₁.2 (omega arith))))
    | inr e ↦ rw e (Ends-undefined Ptr 1 w)
  ]

  list-Ends : (f : ℕ) (w : World) → InBuffer w → 3 * left w + 2 < f → Ends 1 w (parse_list f w)
  list-Ends zero w here h = absurd (omega arith)
  list-Ends (suc f) w here h = Ends-bind 1 0 w _ _ (Ends-consume w here) (λ c w₁ r₁.
      Ends-bind 0 0 w₁ _ _ (Ends-assert w₁ r₁.2 b'l' c) (λ u w₂ r₂.
        Ends-bind 0 0 w₂ _ _ (Ends-alloc w₂ r₂.2 (of_kind b_list)) (λ p w₃ r₃.
          Ends-bind 0 0 w₃ _ _
            (list_loop-Ends f p w₃ r₃.2 (
              omega
                (arith, left-Reaches 1 w w₁ r₁, left-Reaches 0 w₁ w₂ r₂, left-Reaches 0 w₂ w₃ r₃)))
            (λ u' w₄ r₄.
              Ends-weaken 0 1 w₄ _ (omega arith)
                (Ends-bind 1 0 w₄ _ _ (Ends-consume w₄ r₄.2) (λ c' w₅ r₅. Ends-here w₅ r₅.2 p))))))

  list_loop-Ends :
      (f : ℕ) (p : Ptr) (w : World) → InBuffer w → 3 * left w + 4 < f → Ends 0 w (list_loop f p w)
  list_loop-Ends zero p w here h = absurd (omega arith)
  list_loop-Ends (suc f) p w here h = Ends-weaken 0 1 w _ (omega arith) (
      Ends-bind 1 0 w _ _ (arbitrary-Ends f w here (omega arith)) (λ q w₁ r₁.
        Ends-bind 0 0 w₁ _ _ (Ends-update w₁ r₁.2 p (push_back q) (push_back-ne q)) (λ u w₂ r₂.
          Ends-bind 0 0 w₂ _ _ (Ends-peek w₂ r₂.2) (λ c w₃ r₃. elim (Bool-cases (c == b'e')) [
            | inl e ↦ rw e (Ends-here w₃ r₃.2 tt)
            | inr e ↦ rw e (
                list_loop-Ends f p w₃ r₃.2 (
                  omega (
                    arith,
                    left-Reaches 1 w w₁ r₁,
                    left-Reaches 0 w₁ w₂ r₂,
                    left-Reaches 0 w₂ w₃ r₃,
                  )))
          ]))))

  dictionary-Ends :
      (f : ℕ) (w : World) → InBuffer w → 3 * left w + 2 < f → Ends 1 w (parse_dictionary f w)
  dictionary-Ends zero w here h = absurd (omega arith)
  dictionary-Ends (suc f) w here h = Ends-bind 1 0 w _ _ (Ends-consume w here) (λ c w₁ r₁.
      Ends-bind 0 0 w₁ _ _ (Ends-assert w₁ r₁.2 b'd' c) (λ u w₂ r₂.
        Ends-bind 0 0 w₂ _ _ (Ends-alloc w₂ r₂.2 (of_kind b_dict)) (λ p w₃ r₃.
          Ends-bind 0 0 w₃ _ _
            (dictionary_loop-Ends f p w₃ r₃.2 (
              omega
                (arith, left-Reaches 1 w w₁ r₁, left-Reaches 0 w₁ w₂ r₂, left-Reaches 0 w₂ w₃ r₃)))
            (λ u' w₄ r₄.
              Ends-weaken 0 1 w₄ _ (omega arith)
                (Ends-bind 1 0 w₄ _ _ (Ends-consume w₄ r₄.2) (λ c' w₅ r₅. Ends-here w₅ r₅.2 p))))))

  dictionary_loop-Ends :
      (f : ℕ) (p : Ptr) (w : World)
      → InBuffer w
      → 3 * left w + 4 < f
      → Ends 0 w (dictionary_loop f p w)
  dictionary_loop-Ends zero p w here h = absurd (omega arith)
  dictionary_loop-Ends (suc f) p w here h = Ends-weaken 0 2 w _ (omega arith) (
      Ends-bind 1 1 w _ _ (extract_string-Ends f w here (omega arith)) (λ k w₁ r₁.
        Ends-bind 0 1 w₁ _ _ (before_value-Ends k w₁ r₁.2) (λ u₀ w₂ r₂.
          Ends-bind 1 0 w₂ _ _
            (arbitrary-Ends f w₂ r₂.2
              (omega (arith, left-Reaches 1 w w₁ r₁, left-Reaches 0 w₁ w₂ r₂)))
            (λ q w₃ r₃. Ends-bind 0 0 w₃ _ _ (after_value-Ends k q w₃ r₃.2) (λ u₁ w₄ r₄.
              Ends-bind 0 0 w₄ _ _
                (Ends-update w₄ r₄.2 p (add_key_value k q) (add_key_value-ne k q))
                (λ u₂ w₅ r₅. Ends-bind 0 0 w₅ _ _ (Ends-peek w₅ r₅.2) (λ c w₆ r₆.
                  elim (Bool-cases (c == b'e')) [
                    | inl e ↦ rw e (Ends-here w₆ r₆.2 tt)
                    | inr e ↦ rw e (
                        dictionary_loop-Ends f p w₆ r₆.2 (
                          omega (
                            arith,
                            left-Reaches 1 w w₁ r₁,
                            left-Reaches 0 w₁ w₂ r₂,
                            left-Reaches 1 w₂ w₃ r₃,
                            left-Reaches 0 w₃ w₄ r₄,
                            left-Reaches 0 w₄ w₅ r₅,
                            left-Reaches 0 w₅ w₆ r₆,
                          )))
                  ])))))))

-- On every text of fewer than 2^32 bytes the run of the parser stays within its fuel; where it
-- returns, at least one character was read and the cursor stands inside the buffer, or at its end.
pub parse_bencoded_string-Ends :
    (to_parse : Bytes) (w : World)
    → length to_parse < 2 ^ 32
    → Ends 1
        (record w { parser = record w.parser { cursor = 0; parse_buf = to_parse } })
        (parse_bencoded_string to_parse w)
unfolding parse_bencoded_string
parse_bencoded_string-Ends to_parse w small =
    arbitrary-Ends (3 * length to_parse + 4)
      (record w { parser = record w.parser { cursor = 0; parse_buf = to_parse } })
      (omega arith, small) (omega arith)
