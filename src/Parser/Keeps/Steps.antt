-- ===== src/Parser/Keeps/Steps.antt =====
-- The parts of the parser that call no other value: each keeps the objects sound.
use btor.Base.{ℕ, zero, suc, ◌≤◌, ◌≡◌, refl, ◌++◌, [], ◌∷◌, arith, inl, inr}
use btor.Base.{Bytes, ◌==◌, Bool-cases, not, ◌&&◌, true, false, Bool}
use btor.Base.Decimal.{is_digit}
use btor.Base.Int.{ℤ, ◌+ℤ◌}
use btor.Base.Outcome.{Outcome, ok}
use btor.Cursor.{World, Cmd}
use btor.Memory.Sound.{IsSound, Between, PointsBehind, PointsBehind-pushed, PointsBehind-added}
use btor.Memory.{Memory, next}
use btor.Object.Dict.{Ptr, insert}
use btor.Object.{
  BObject, b_list, b_dict, of_int, of_string, is_kind, push_back, add_key_value, get_int,
}
use btor.Parser.Sound.{
  Safe, Any, From, Safe-bind, Safe-weaken, Safe-here, Safe-lift, Safe-assert, Safe-throw,
  Safe-consume, Safe-alloc, Safe-query,
}
use btor.Parser.{
  append_digit, length_loop, read_loop, extract_string, parse_string, integer_loop, integer_digit,
  parse_integer, is_info, is_length, before_value, after_value, add_length, fits_int64, dispatch,
}

pub length_loop-Safe :
    (f c len n : ℕ) (w : World)
    → IsSound w.memory
    → n ≤ next w.memory
    → Safe Any n (length_loop f c len w)
unfolding length_loop
length_loop-Safe zero c len n w s le = unfold Safe in tt
length_loop-Safe (suc f) c len n w s le = elim (Bool-cases (c == b':')) [
  | inl e ↦ rw e (Safe-here n w s le len)
  | inr e ↦ elim (Bool-cases (is_digit c)) [
    | inl d ↦
        rw (e, d)
          (Safe-bind Any Any n _ _ (Safe-lift n w s le (append_digit _ len c)) (λ len' w₁ s₁ le₁ u.
            Safe-bind Any Any n _ _ (Safe-consume n w₁ s₁ le₁)
              (λ c' w₂ s₂ le₂ u'. length_loop-Safe f c' len' n w₂ s₂ le₂)))
    | inr d ↦ rw (e, d) (Safe-throw n w s le Any c)
  ]
]

pub read_loop-Safe :
    (k : ℕ) (acc : Bytes) (n : ℕ) (w : World)
    → IsSound w.memory
    → n ≤ next w.memory
    → Safe Any n (read_loop k acc w)
unfolding read_loop
read_loop-Safe zero acc n w s le = Safe-here n w s le acc
read_loop-Safe (suc k) acc n w s le =
    Safe-bind Any Any n _ _ (Safe-consume n w s le)
      (λ c w₁ s₁ le₁ u. read_loop-Safe k _ n w₁ s₁ le₁)

pub extract_string-Safe :
    (f n : ℕ) (w : World) → IsSound w.memory → n ≤ next w.memory → Safe Any n (extract_string f w)
unfolding extract_string
extract_string-Safe f n w s le = Safe-bind Any Any n _ _ (Safe-consume n w s le) (λ c w₁ s₁ le₁ u.
    Safe-bind Any Any n _ _ (length_loop-Safe f c 0 n w₁ s₁ le₁)
      (λ len w₂ s₂ le₂ u'. read_loop-Safe len [] n w₂ s₂ le₂))

pub parse_string-Safe :
    (f n : ℕ) (w : World)
    → IsSound w.memory
    → n ≤ next w.memory
    → Safe (From n) n (parse_string f w)
unfolding parse_string
parse_string-Safe f n w s le =
    Safe-bind Any (From n) n _ _ (extract_string-Safe f n w s le)
      (λ b w₁ s₁ le₁ u. Safe-alloc n w₁ s₁ le₁ (of_string b) refl refl)

pub integer_loop-Safe :
    (f : ℕ) (first neg : Bool) (i n : ℕ) (w : World)
    → IsSound w.memory
    → n ≤ next w.memory
    → Safe Any n (integer_loop f first neg i w)
unfolding integer_loop
integer_loop-Safe zero first neg i n w s le = unfold Safe in tt
integer_loop-Safe (suc f) first neg i n w s le =
    Safe-bind Any Any n _ _ (Safe-consume n w s le) (λ c w₁ s₁ le₁ u.
      elim (Bool-cases (c == b'e')) [
        | inl e ↦ rw e (Safe-here n w₁ s₁ le₁ (neg, i))
        | inr e ↦ elim (Bool-cases (c == b'-' && not first)) [
          | inl d ↦ rw (e, d) (Safe-throw n w₁ s₁ le₁ Any b'-')
          | inr d ↦
              rw (e, d)
                (Safe-bind Any Any n _ _ (Safe-lift n w₁ s₁ le₁ (integer_digit i c))
                  (λ i' w₂ s₂ le₂ u'. integer_loop-Safe f false _ i' n w₂ s₂ le₂))
        ]
      ])

pub parse_integer-Safe :
    (f n : ℕ) (w : World)
    → IsSound w.memory
    → n ≤ next w.memory
    → Safe (From n) n (parse_integer f w)
unfolding parse_integer
parse_integer-Safe f n w s le =
    Safe-bind Any (From n) n _ _ (Safe-consume n w s le) (λ c w₁ s₁ le₁ u.
      Safe-bind Any (From n) n _ _ (Safe-assert n w₁ s₁ le₁ b'i' c) (λ u' w₂ s₂ le₂ u''.
        Safe-bind Any (From n) n _ _ (integer_loop-Safe f true false 0 n w₂ s₂ le₂)
          (λ r w₃ s₃ le₃ u₃. Safe-alloc n w₃ s₃ le₃ (of_int _) refl refl)))

pub push_back-PointsBehind :
    (p : Ptr) (high : ℕ) (q : Ptr) (o o' : BObject)
    → Between p high q
    → PointsBehind p high o
    → push_back q o ≡ ok o'
    → PointsBehind p high o'
unfolding push_back
push_back-PointsBehind p high q o o' b h e = elim (Bool-cases (is_kind o.kind b_list)) [
  | inl k ↦
      let same : record o { list_val = o.list_val ++ q ∷ [] } ≡ o' = cc (rw k at e) in
      rw (← same) (PointsBehind-pushed p high q o h b)
  | inr k ↦ absurd (cc (rw k at e))
]

pub add_key_value-PointsBehind :
    (p : Ptr) (high : ℕ) (k : Bytes) (q : Ptr) (o o' : BObject)
    → Between p high q
    → PointsBehind p high o
    → add_key_value k q o ≡ ok o'
    → PointsBehind p high o'
unfolding add_key_value
add_key_value-PointsBehind p high k q o o' b h e = elim (Bool-cases (is_kind o.kind b_dict)) [
  | inl d ↦
      let same : record o { dict_val = insert k q o.dict_val } ≡ o' = cc (rw d at e) in
      rw (← same) (PointsBehind-added p high k q o h b)
  | inr d ↦ absurd (cc (rw d at e))
]

pub before_value-Safe :
    (k : Bytes) (n : ℕ) (w : World)
    → IsSound w.memory
    → n ≤ next w.memory
    → Safe Any n (before_value k w)
unfolding before_value Safe
before_value-Safe k n w s le = elim (Bool-cases (is_info k)) [
  | inl e ↦ rw e (s, le, tt)
  | inr e ↦ rw e (s, le, tt)
]

pub add_length-Safe :
    (i : ℤ) (n : ℕ) (w : World) → IsSound w.memory → n ≤ next w.memory → Safe Any n (add_length i w)
unfolding add_length Safe
add_length-Safe i n w s le = elim (Bool-cases (fits_int64 (w.parser.collected_length +ℤ i))) [
  | inl e ↦ rw e (s, le, tt)
  | inr e ↦ rw e tt
]

pub after_value-Safe :
    (k : Bytes) (q : Ptr) (n : ℕ) (w : World)
    → IsSound w.memory
    → n ≤ next w.memory
    → Safe Any n (after_value k q w)
unfolding after_value
after_value-Safe k q n w s le = elim (Bool-cases (is_info k)) [
  | inl e ↦ rw e (unfold Safe in (s, le, tt))
  | inr e ↦ elim (Bool-cases (is_length k)) [
    | inl e' ↦
        rw (e, e')
          (Safe-bind Any Any n _ _ (Safe-query n w s le q get_int)
            (λ i w₁ s₁ le₁ u. add_length-Safe i n w₁ s₁ le₁))
    | inr e' ↦ rw (e, e') (Safe-here n w s le tt)
  ]
]

pub dispatch-Safe :
    (P : Ptr → Memory → Type 0) (n ch : ℕ) (i l d s : Cmd Ptr) (w : World)
    → IsSound w.memory
    → n ≤ next w.memory
    → Safe P n (i w)
    → Safe P n (l w)
    → Safe P n (d w)
    → Safe P n (s w)
    → Safe P n (dispatch ch i l d s w)
unfolding dispatch
dispatch-Safe P n ch i l d s w sound le hi hl hd hs = elim (Bool-cases (ch == b'i')) [
  | inl e ↦ rw e hi
  | inr e ↦ elim (Bool-cases (ch == b'l')) [
    | inl e' ↦ rw (e, e') hl
    | inr e' ↦ elim (Bool-cases (ch == b'd')) [
      | inl e'' ↦ rw (e, e', e'') hd
      | inr e'' ↦ elim (Bool-cases (is_digit ch)) [
        | inl e₃ ↦ rw (e, e', e'', e₃) hs
        | inr e₃ ↦ rw (e, e', e'', e₃) (Safe-throw n w sound le P ch)
      ]
    ]
  ]
]

-- A container that is returned: it was made at `p`, and what followed allocated behind it.
pub Safe-return :
    (n : ℕ) (p : Ptr) (w : World)
    → n ≤ p
    → IsSound w.memory
    → suc p ≤ next w.memory
    → Safe (From n) (suc p) (ok (p, w))
unfolding Safe
Safe-return n p w le s lt = (s, lt, (le, omega arith))

pub Safe-container :
    (n : ℕ) (p : Ptr) (r : Outcome (Ptr × World))
    → n ≤ p
    → Safe (From n) (suc p) r
    → Safe (From n) n r
Safe-container n p r le h =
    Safe-weaken (From n) (From n) (suc p) n r (omega arith) (λ q m at_q. at_q) h
