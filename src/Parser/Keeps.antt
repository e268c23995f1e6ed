-- ===== src/Parser/Keeps.antt =====
-- Every function of the parser keeps the objects sound: one induction on the fuel.
mod Steps
use btor.Base.{ℕ, zero, suc, ◌≤◌, ◌<◌, ◌≡◌, refl, ◌++◌, [], ◌∷◌, arith, inl, inr}
use btor.Base.{Bytes, ◌==◌, Bool-cases, length, not, ◌&&◌, true, false, Bool, ltb}
use btor.Base.Decimal.{is_digit}
use btor.Base.Int.{ℤ, ◌+ℤ◌}
use btor.Base.Outcome.{Outcome, ok}
use btor.Cursor.{World, Cmd}
use btor.Memory.Sound.{IsSound, Between, PointsBehind, PointsBehind-pushed, PointsBehind-added}
use btor.Memory.{Memory, next}
use btor.Object.Dict.{Ptr, insert}
use btor.Object.{
  BObject, b_list, b_dict, of_kind, of_int, of_string, is_kind, push_back, add_key_value, get_int,
}
use btor.Parser.Sound.{
  Safe, Any, From, Safe-bind, Safe-weaken, Safe-here, Safe-out_of_fuel, Safe-undefined, Safe-lift,
  Safe-assert, Safe-throw, Safe-peek, Safe-consume, Safe-alloc, Safe-update, Safe-query,
}
use btor.Parser.{
  append_digit, length_loop, read_loop, extract_string, parse_string, integer_loop, integer_digit,
  parse_integer, is_info, is_length, before_value, after_value, add_length, fits_int64, dispatch,
  parse_arbitrary, enough_fuel, parse_list, list_loop, parse_dictionary, dictionary_loop,
  parse_bencoded_string,
}
use btor.Parser.Keeps.Steps.{
  length_loop-Safe, read_loop-Safe, extract_string-Safe, parse_string-Safe, integer_loop-Safe,
  parse_integer-Safe, push_back-PointsBehind, add_key_value-PointsBehind, before_value-Safe,
  add_length-Safe, after_value-Safe, dispatch-Safe, Safe-return, Safe-container,
}

mutual
  unfolding parse_arbitrary

  arbitrary-Safe :
      (f n : ℕ) (w : World)
      → IsSound w.memory
      → n ≤ next w.memory
      → Safe (From n) n (parse_arbitrary f w)
  arbitrary-Safe zero n w s le = Safe-out_of_fuel (From n) n
  arbitrary-Safe (suc f) n w s le =
      elim (Bool-cases (ltb w.parser.cursor (length w.parser.parse_buf))) [
        | inl e ↦ rw e (
            Safe-bind Any (From n) n _ _ (Safe-peek n w s le) (λ ch w₁ s₁ le₁ u.
              dispatch-Safe (From n) n ch _ _ _ _ w₁ s₁ le₁ (parse_integer-Safe f n w₁ s₁ le₁)
                (list-Safe f n w₁ s₁ le₁) (dictionary-Safe f n w₁ s₁ le₁)
                (parse_string-Safe f n w₁ s₁ le₁)))
        | inr e ↦ rw e (Safe-undefined (From n) n)
      ]

  list-Safe :
      (f n : ℕ) (w : World)
      → IsSound w.memory
      → n ≤ next w.memory
      → Safe (From n) n (parse_list f w)
  list-Safe zero n w s le = Safe-out_of_fuel (From n) n
  list-Safe (suc f) n w s le =
      Safe-bind Any (From n) n _ _ (Safe-consume n w s le) (λ c w₁ s₁ le₁ u₁.
        Safe-bind Any (From n) n _ _ (Safe-assert n w₁ s₁ le₁ b'l' c) (λ u w₂ s₂ le₂ u₂.
          Safe-bind (From n) (From n) n _ _ (Safe-alloc n w₂ s₂ le₂ (of_kind b_list) refl refl)
            (λ p w₃ s₃ le₃ at_p. Safe-container n p _ at_p.0 (
              Safe-bind Any (From n) (suc p) _ _
                (list_loop-Safe f (suc p) p w₃ s₃ (omega arith) (omega arith))
                (λ u' w₄ s₄ le₄ u₄.
                  Safe-bind Any (From n) (suc p) _ _ (Safe-consume (suc p) w₄ s₄ le₄)
                    (λ c' w₅ s₅ le₅ u₅. Safe-return n p w₅ at_p.0 s₅ le₅))))))

  list_loop-Safe :
      (f n : ℕ) (p : Ptr) (w : World)
      → IsSound w.memory
      → n ≤ next w.memory
      → p < n
      → Safe Any n (list_loop f p w)
  list_loop-Safe zero n p w s le lt = Safe-out_of_fuel Any n
  list_loop-Safe (suc f) n p w s le lt =
      Safe-bind (From n) Any n _ _ (arbitrary-Safe f n w s le) (λ q w₁ s₁ le₁ at_q.
        Safe-bind Any Any n _ _
          (Safe-update n w₁ s₁ le₁ p (push_back q) (omega arith)
            (λ o o' b e. push_back-PointsBehind p _ q o o' (omega arith, at_q.1) b e))
          (λ u w₂ s₂ le₂ u₂. Safe-bind Any Any n _ _ (Safe-peek n w₂ s₂ le₂) (λ c w₃ s₃ le₃ u₃.
            elim (Bool-cases (c == b'e')) [
              | inl e ↦ rw e (Safe-here n w₃ s₃ le₃ tt)
              | inr e ↦ rw e (list_loop-Safe f n p w₃ s₃ le₃ lt)
            ])))

  dictionary-Safe :
      (f n : ℕ) (w : World)
      → IsSound w.memory
      → n ≤ next w.memory
      → Safe (From n) n (parse_dictionary f w)
  dictionary-Safe zero n w s le = Safe-out_of_fuel (From n) n
  dictionary-Safe (suc f) n w s le =
      Safe-bind Any (From n) n _ _ (Safe-consume n w s le) (λ c w₁ s₁ le₁ u₁.
        Safe-bind Any (From n) n _ _ (Safe-assert n w₁ s₁ le₁ b'd' c) (λ u w₂ s₂ le₂ u₂.
          Safe-bind (From n) (From n) n _ _ (Safe-alloc n w₂ s₂ le₂ (of_kind b_dict) refl refl)
            (λ p w₃ s₃ le₃ at_p. Safe-container n p _ at_p.0 (
              Safe-bind Any (From n) (suc p) _ _
                (dictionary_loop-Safe f (suc p) p w₃ s₃ (omega arith) (omega arith))
                (λ u' w₄ s₄ le₄ u₄.
                  Safe-bind Any (From n) (suc p) _ _ (Safe-consume (suc p) w₄ s₄ le₄)
                    (λ c' w₅ s₅ le₅ u₅. Safe-return n p w₅ at_p.0 s₅ le₅))))))

  dictionary_loop-Safe :
      (f n : ℕ) (p : Ptr) (w : World)
      → IsSound w.memory
      → n ≤ next w.memory
      → p < n
      → Safe Any n (dictionary_loop f p w)
  dictionary_loop-Safe zero n p w s le lt = Safe-out_of_fuel Any n
  dictionary_loop-Safe (suc f) n p w s le lt =
      Safe-bind Any Any n _ _ (extract_string-Safe f n w s le) (λ k w₁ s₁ le₁ u₁.
        Safe-bind Any Any n _ _ (before_value-Safe k n w₁ s₁ le₁) (λ u w₂ s₂ le₂ u₂.
          Safe-bind (From n) Any n _ _ (arbitrary-Safe f n w₂ s₂ le₂) (λ q w₃ s₃ le₃ at_q.
            Safe-weaken Any Any (suc q) n _ (omega arith) (λ a m u. tt)
              (Safe-bind Any Any (suc q) _ _ (after_value-Safe k q (suc q) w₃ s₃ at_q.1)
                (λ u₃ w₄ s₄ le₄ u₄.
                  Safe-bind Any Any (suc q) _ _
                    (Safe-update (suc q) w₄ s₄ le₄ p (add_key_value k q) (omega arith)
                      (λ o o' b e. add_key_value-PointsBehind p _ k q o o' (omega arith, le₄) b e))
                    (λ u₅ w₅ s₅ le₅ u₆.
                      Safe-bind Any Any (suc q) _ _ (Safe-peek (suc q) w₅ s₅ le₅) (λ c w₆ s₆ le₆ u₇.
                        elim (Bool-cases (c == b'e')) [
                          | inl e ↦ rw e (Safe-here (suc q) w₆ s₆ le₆ tt)
                          | inr e ↦ rw e (dictionary_loop-Safe f (suc q) p w₆ s₆ le₆ (omega arith))
                        ])))))))

-- From sound objects every run of the parser that returns leaves sound objects, whatever the text:
-- each is live and listed once for the destructor, and points only to objects made after it; and
-- the pointer that it returns is one of the objects that this run made.
pub parse_bencoded_string-IsSound :
    (to_parse : Bytes) (w : World) (p : Ptr) (w' : World)
    → IsSound w.memory
    → parse_bencoded_string to_parse w ≡ ok (p, w')
    → IsSound w'.memory × (next w.memory ≤ p) × (p < next w'.memory)
unfolding parse_bencoded_string
parse_bencoded_string-IsSound to_parse w p w' s e =
    let start = record w { parser = record w.parser { cursor = 0; parse_buf = to_parse } } in
    let safe : Safe (From (next w.memory)) (next w.memory) (ok (p, w')) =
      rw e at (arbitrary-Safe (enough_fuel to_parse) (next w.memory) start s (omega arith)) in
    unfold Safe in (safe.0, safe.2.0, safe.2.1)
