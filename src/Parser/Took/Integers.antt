-- ===== src/Parser/Took/Integers.antt =====
-- `parseInteger`, by what it takes from the text.
use btor.Base.{
  ℕ, zero, suc, ◌+◌, ◌-◌, ◌*◌, ◌^◌, ◌≡◌, ◌<◌, arith, refl, sym, ap, Bool, true, false, [], ◌∷◌,
  ◌++◌, ◌∙◌, inl, inr, append-nil,
}
use btor.Base.{Bytes, if◌then◌else◌, ◌==◌, ==_iff, Bool-cases, or-false}
use btor.Base.Decimal.{is_digit}
use btor.Base.Outcome.{ok}
use btor.Bencode.{int, FitsInt}
use btor.Parser.Took.Scalars.{append_digit-ok, Made}
use btor.Parser.Integers.{neg_suc}
use btor.Cursor.{World, Cmd, consume_char}
use btor.Cursor.Sees.{Sees}
use btor.Memory.Build.{build}
use btor.Memory.{Memory, next}
use btor.Parser.Spells.{Fits, AllPlain, digits_among, sign, signed, an_integer}
use btor.Parser.Took.{
  Reading, Took, Took-weaken, Took-here, Took-throw, Took-bind, Took-consume, Took-lift,
  Took-assert,
}
use btor.Parser.{integer_digit, integer_loop, parse_integer}

-- The rounds of the loop behind the first.
abbrev DigitsRead : Memory → Bool → ℕ → Reading (Bool × ℕ)
DigitsRead m₀ negative n (negative', n') c rest m =
    (ds : Bytes) × (c ≡ ds ++ b'e' ∷ [])
    × AllPlain ds
    × (negative' ≡ negative)
    × (n' ≡ digits_among n ds)
    × (n' < 2 ^ 63)
    × (m ≡ m₀)

integer_digit-ok :
    (n c n' : ℕ)
    → n < 2 ^ 63
    → integer_digit n c ≡ ok n'
    → ((if is_digit c then n * 10 + (c - b'0') else n) ≡ n') × (n' < 2 ^ 63)
integer_digit-ok n c n' low e = elim (Bool-cases (is_digit c)) [
  | inl d ↦ rw d (append_digit-ok (2 ^ 63) n c n' (rw d at e))
  | inr d ↦ let same : n ≡ n' = cc (rw d at e) in rw d (same, rw same at low)
]

integer_loop-Took :
    (f : ℕ) (negative : Bool) (n : ℕ) (s : Bytes) (w : World)
    → n < 2 ^ 63
    → Sees s w.parser
    → Took (DigitsRead w.memory negative n) s (integer_loop f false negative n w)
unfolding integer_loop digits_among
integer_loop-Took zero negative n s w low sees = unfold Took in tt
integer_loop-Took (suc f) negative n s w low sees =
    Took-consume (DigitsRead w.memory negative n) s w sees _ (λ c rest e sees'.
      elim (Bool-cases (c == b'e')) [
        | inl d ↦ rw d (
            Took-here _ rest (negative, n) _ sees'
              ([], ap (λ (x : ℕ). x ∷ []) ((==_iff c b'e').0 d), tt, refl, refl, low, refl))
        | inr d ↦ elim (Bool-cases (c == b'-')) [
          | inl d' ↦ rw (d, d') (Took-throw _ rest b'-' _)
          | inr d' ↦
              rw (d, d')
                (Took-lift _ rest _ sees' (integer_digit n c) _ (λ n' at_n. rw (or-false negative) (
                  Took-weaken (DigitsRead w.memory negative n') _ rest _
                    (integer_loop-Took f negative n' rest _ (integer_digit-ok n c n' low at_n).1
                      sees')
                    (λ r c' rest' m e' (ds, spelt, plain, neg, value, small, same). (
                      c ∷ ds,
                      ap (λ (x : Bytes). c ∷ x) spelt,
                      (d, d', plain),
                      neg,
                      value
                          ∙ ap (λ (x : ℕ). digits_among x ds)
                              (sym (integer_digit-ok n c n' low at_n).0),
                      small,
                      same,
                    )))))
        ]
      ])

-- The loop from its first round on, where a sign may stand.
abbrev SignedRead : Memory → Reading (Bool × ℕ)
SignedRead m₀ (negative, n) c rest m =
    (ds : Bytes) × (c ≡ sign negative ++ (ds ++ b'e' ∷ []))
    × AllPlain ds
    × (n ≡ digits_among 0 ds)
    × (n < 2 ^ 63)
    × (m ≡ m₀)

signed_loop-Took :
    (f : ℕ) (s : Bytes) (w : World)
    → Sees s w.parser
    → Took (SignedRead w.memory) s (integer_loop f true false 0 w)
unfolding integer_loop digits_among is_digit
signed_loop-Took zero s w sees = unfold Took in tt
signed_loop-Took (suc f) s w sees = Took-consume (SignedRead w.memory) s w sees _ (λ c rest e sees'.
    elim (Bool-cases (c == b'e')) [
      | inl d ↦ rw d (
          Took-here _ rest (false, 0) _ sees'
            ([], ap (λ (x : ℕ). x ∷ []) ((==_iff c b'e').0 d), tt, refl, omega arith, refl))
      | inr d ↦ elim (Bool-cases (c == b'-')) [
        | inl d' ↦
            rw (d, d')
              (Took-lift _ rest _ sees' (integer_digit 0 c) _ (λ n' at_n.
                Took-weaken (DigitsRead w.memory true n') _ rest _
                  (integer_loop-Took f true n' rest _ (integer_digit-ok 0 c n' (omega arith) at_n).1
                    sees')
                  (λ r c' rest' m e' (ds, spelt, plain, neg, value, small, same). (
                    ds,
                    rw (neg, (==_iff c b'-').0 d', spelt) refl,
                    plain,
                    value
                        ∙ ap (λ (x : ℕ). digits_among x ds)
                            (sym (integer_digit-ok 0 c n' (omega arith) at_n).0
                              ∙ rw ((==_iff c b'-').0 d') refl),
                    small,
                    same,
                  ))))
        | inr d' ↦
            rw (d, d')
              (Took-lift _ rest _ sees' (integer_digit 0 c) _ (λ n' at_n.
                Took-weaken (DigitsRead w.memory false n') _ rest _
                  (integer_loop-Took f false n' rest _
                    (integer_digit-ok 0 c n' (omega arith) at_n).1 sees')
                  (λ r c' rest' m e' (ds, spelt, plain, neg, value, small, same). (
                    c ∷ ds,
                    rw neg (ap (λ (x : Bytes). c ∷ x) spelt),
                    (d, d', plain),
                    value
                        ∙ ap (λ (x : ℕ). digits_among x ds)
                            (sym (integer_digit-ok 0 c n' (omega arith) at_n).0),
                    small,
                    same,
                  ))))
      ]
    ])

signed-FitsInt : (negative : Bool) (n : ℕ) → n < 2 ^ 63 → FitsInt (signed negative n)
signed-FitsInt false n h = h
signed-FitsInt true zero h = omega arith
signed-FitsInt true (suc n) h = rw neg_suc h

pub parse_integer-Took :
    (f : ℕ) (s : Bytes) (w : World) → Sees s w.parser → Took (Made w.memory) s (parse_integer f w)
unfolding parse_integer build Fits btor.Cursor.alloc btor.Memory.get_new_bobject
parse_integer-Took f s w sees = Took-consume (Made w.memory) s w sees _ (λ ch rest e sees'.
    Took-assert _ rest _ sees' b'i' ch _ (λ is_i.
      Took-bind (SignedRead w.memory) _ rest _ _ (signed_loop-Took f rest _ sees')
        (λ (negative, n) c rest' w' e' sees'' (ds, spelt, plain, value, small, same).
          Took-here _ rest' (next w'.memory) _ sees'' (
            int (signed negative (digits_among 0 ds)),
            rw (is_i, append-nil, spelt) (an_integer negative ds plain),
            signed-FitsInt negative _ (rw value at small),
            ap next same,
            rw (value, same) refl,
          ))))
