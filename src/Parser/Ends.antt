-- ===== src/Parser/Ends.antt =====
-- Every call of the parser ends within its fuel, and leaves the cursor in the buffer.
use btor.Base.{
  ℕ, zero, suc, ◌+◌, ◌-◌, ◌*◌, ◌<◌, ◌≤◌, ◌^◌, ◌≢◌, Bool, true, false, not, ◌&&◌, ◌||◌, [], ◌∷◌,
  ◌++◌, arith, inl, inr,
}
use btor.Base.{Bytes, if◌then◌else◌, ◌==◌, Bool-cases, ltb}
use btor.Base.Decimal.{is_digit}
use btor.Base.Int.{pos, neg_ℕ}
use btor.Base.Outcome.{out_of_fuel}
use btor.Cursor.{World}
use btor.Object.{of_int, of_string}
use btor.Parser.Fuel.{
  left, InBuffer, Ends, Ends-bind, Ends-weaken, Ends-here, Ends-lift, Ends-assert, Ends-throw,
  Ends-alloc, Ends-consume, left-Reaches,
}
use btor.Parser.{
  append_digit, integer_digit, length_loop, read_loop, extract_string, parse_string, integer_loop,
  parse_integer,
}

append_digit-ne : (limit n c : ℕ) → append_digit limit n c ≢ out_of_fuel
append_digit-ne limit n c = elim (Bool-cases (ltb (n * 10 + (c - b'0')) limit)) [
  | inl e ↦ rw e (cc)
  | inr e ↦ rw e (cc)
]

integer_digit-ne : (n c : ℕ) → integer_digit n c ≢ out_of_fuel
integer_digit-ne n c = elim (Bool-cases (is_digit c)) [
  | inl e ↦ rw e (append_digit-ne (2 ^ 63) n c)
  | inr e ↦ rw e (cc)
]

pub length_loop-Ends :
    (f c n : ℕ) (w : World) → InBuffer w → left w < f → Ends 0 w (length_loop f c n w)
unfolding length_loop
length_loop-Ends zero c n w here h = absurd (omega arith)
length_loop-Ends (suc f) c n w here h = elim (Bool-cases (c == b':')) [
  | inl e ↦ rw e (Ends-here w here n)
  | inr e ↦ elim (Bool-cases (is_digit c)) [
    | inl e' ↦
        rw (e, e')
          (Ends-bind 0 0 w _ _
            (Ends-lift w here (append_digit (2 ^ 31) n c) (append_digit-ne (2 ^ 31) n c))
            (λ n' w₁ r₁. Ends-weaken 0 1 w₁ _ (omega arith) (
              Ends-bind 1 0 w₁ _ _ (Ends-consume w₁ r₁.2) (λ c' w₂ r₂.
                length_loop-Ends f c' n' w₂ r₂.2
                  (omega (arith, left-Reaches 0 w w₁ r₁, left-Reaches 1 w₁ w₂ r₂))))))
    | inr e' ↦ rw (e, e') (Ends-throw w here ℕ c 0)
  ]
]

pub read_loop-Ends : (n : ℕ) (acc : Bytes) (w : World) → InBuffer w → Ends 0 w (read_loop n acc w)
unfolding read_loop
read_loop-Ends zero acc w here = Ends-here w here acc
read_loop-Ends (suc n) acc w here = Ends-weaken 0 1 w _ (omega arith) (
    Ends-bind 1 0 w _ _ (Ends-consume w here) (λ c w₁ r₁. read_loop-Ends n (acc ++ c ∷ []) w₁ r₁.2))

pub extract_string-Ends :
    (f : ℕ) (w : World) → InBuffer w → left w ≤ f → Ends 1 w (extract_string f w)
unfolding extract_string
extract_string-Ends f w here h = Ends-bind 1 0 w _ _ (Ends-consume w here) (λ c w₁ r₁.
    Ends-bind 0 0 w₁ _ _ (length_loop-Ends f c 0 w₁ r₁.2 (omega (arith, left-Reaches 1 w w₁ r₁)))
      (λ n w₂ r₂. read_loop-Ends n [] w₂ r₂.2))

pub parse_string-Ends : (f : ℕ) (w : World) → InBuffer w → left w ≤ f → Ends 1 w (parse_string f w)
unfolding parse_string
parse_string-Ends f w here h =
    Ends-bind 1 0 w _ _ (extract_string-Ends f w here h)
      (λ b w₁ r₁. Ends-alloc w₁ r₁.2 (of_string b))

integer_loop-Ends :
    (f : ℕ) (first negative : Bool) (n : ℕ) (w : World)
    → InBuffer w
    → left w < f
    → Ends 0 w (integer_loop f first negative n w)
unfolding integer_loop
integer_loop-Ends zero first negative n w here h = absurd (omega arith)
integer_loop-Ends (suc f) first negative n w here h = Ends-weaken 0 1 w _ (omega arith) (
    Ends-bind 1 0 w _ _ (Ends-consume w here) (λ c w₁ r₁. elim (Bool-cases (c == b'e')) [
      | inl e ↦ rw e (Ends-here w₁ r₁.2 (negative, n))
      | inr e ↦ elim (Bool-cases (c == b'-' && not first)) [
        | inl e' ↦ rw (e, e') (Ends-throw w₁ r₁.2 (Bool × ℕ) b'-' 0)
        | inr e' ↦
            rw (e, e')
              (Ends-bind 0 0 w₁ _ _ (Ends-lift w₁ r₁.2 (integer_digit n c) (integer_digit-ne n c))
                (λ n' w₂ r₂.
                  integer_loop-Ends f false (negative || (c == b'-' && first)) n' w₂ r₂.2
                    (omega (arith, left-Reaches 1 w w₁ r₁, left-Reaches 0 w₁ w₂ r₂))))
      ]
    ]))

pub parse_integer-Ends :
    (f : ℕ) (w : World) → InBuffer w → left w ≤ f → Ends 1 w (parse_integer f w)
unfolding parse_integer
parse_integer-Ends f w here h = Ends-bind 1 0 w _ _ (Ends-consume w here) (λ c w₁ r₁.
    Ends-bind 0 0 w₁ _ _ (Ends-assert w₁ r₁.2 b'i' c) (λ u w₂ r₂.
      Ends-bind 0 0 w₂ _ _
        (integer_loop-Ends f true false 0 w₂ r₂.2
          (omega (arith, left-Reaches 1 w w₁ r₁, left-Reaches 0 w₁ w₂ r₂)))
        (λ (negative, n) w₃ r₃. Ends-alloc w₃ r₃.2 (of_int (if negative then neg_ℕ n else pos n)))))
