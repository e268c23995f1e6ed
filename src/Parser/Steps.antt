-- ===== src/Parser/Steps.antt =====
-- One call of each function of the parser, over what its callees return.
use btor.Base.{ℕ, suc, ◌+◌, ◌<◌, ◌^◌, ◌≡◌, refl, true, false, ◌∷◌, ◌++◌, arith, inl, inr}
use btor.Base.{Bytes, length, lt→ltb, ◌==◌, Bool-cases}
use btor.Base.Decimal.{is_digit, decimal-AllDigits, decimal-cons}
use btor.Base.Int.{add_pos, ℤ, negsuc, pos, ◌+ℤ◌}
use btor.Base.Outcome.{ok}
use btor.Bencode.{Value, int, str, list, dict, encode, encode_string, own_length, FitsLength}
use btor.Cursor.{World, Cmd, alloc, query}
use btor.Cursor.Sees.{Sees, peek-Sees, more-Sees}
use btor.Memory.Amend.{Open, deref-get_new}
use btor.Memory.Build.{build, pushed, added, created}
use btor.Parser.Integers.{digit-ne-e}
use btor.Memory.{Memory, next, get_new_bobject, deref}
use btor.Object.Dict.{Ptr}
use btor.Object.{BObject, b_list, b_dict, of_int, push_back, add_key_value, get_int}
use btor.Parser.Lengths.{Collected}
use btor.Parser.Scan.{mark, settle, scan}
use btor.Parser.{
  is_info, is_length, before_value, after_value, add_length, dispatch, parse_arbitrary,
  parse_integer, parse_list, parse_dictionary, parse_string,
}

-- The state in which a value has been read.
abbrev pub after : Value → World → World
after v w = record { parser = scan v w.parser; memory = build v w.memory }

pub alloc-created :
    (o : BObject) (w : World)
    → alloc o w ≡ ok (next w.memory, record w { memory = created o w.memory })
unfolding alloc get_new_bobject
alloc-created o w = refl

pub push_back-Open :
    (p : Ptr) (q : Ptr) (w : World) (here : Open b_list p w.memory)
    → push_back q here.object ≡ ok (pushed q here.object)
unfolding push_back
push_back-Open p q w here = rw here.of_that_kind

pub add_key_value-Open :
    (p : Ptr) (k : Bytes) (q : Ptr) (w : World) (here : Open b_dict p w.memory)
    → add_key_value k q here.object ≡ ok (added k q here.object)
unfolding add_key_value
add_key_value-Open p k q w here = rw here.of_that_kind

pub before_value-mark :
    (k : Bytes) (w : World) → before_value k w ≡ ok (tt, record w { parser = mark k w.parser })
unfolding before_value
before_value-mark k w = elim (Bool-cases (is_info k)) [ inl e ↦ rw e | inr e ↦ rw e ]

-- The switch of `parseArbitrary` once a character has been seen.
pub parse_arbitrary-Sees :
    (f c : ℕ) {rest : Bytes} (w : World)
    → Sees (c ∷ rest) w.parser
    → parse_arbitrary (suc f) w
      ≡ dispatch c (parse_integer f) (parse_list f) (parse_dictionary f) (parse_string f) w
unfolding parse_arbitrary
parse_arbitrary-Sees f c w s = rw (more-Sees w s) (rw (peek-Sees w s))

pub dispatch-digit : (c : ℕ) (i l d s : Cmd Ptr) → is_digit c ≡ true → dispatch c i l d s ≡ s
unfolding dispatch is_digit
dispatch-digit c i l d s h = ground arith

-- A printed value begins with a character that is no `e`.
pub encode-head : (v : Value) → (c : ℕ) × (cs : Bytes) × (encode v ≡ c ∷ cs) × ((c == b'e') ≡ false)
unfolding encode encode_string
encode-head (int i) = (b'i', _, refl, refl)
encode-head (list xs) = (b'l', _, refl, refl)
encode-head (dict fs) = (b'd', _, refl, refl)
encode-head (str b) =
    let (c, cs, e) = decimal-cons (length b) in
    let digits = rw e at (decimal-AllDigits (length b)) in
    (c, cs ++ b':' ∷ b, rw e, digit-ne-e c digits.0)

-- `after_value` for a key that is not "length".
after_value_other :
    (k : Bytes) (v : Value) (q : Ptr) (w : World)
    → is_length k ≡ false
    → after_value k q w ≡ ok (tt, record w { parser = settle k v w.parser })
unfolding after_value
after_value_other k v q w e = elim (Bool-cases (is_info k)) [ inl e' ↦ rw e' | inr e' ↦ rw (e', e) ]

query_int :
    (i : ℤ) (w : World) (m : Memory)
    → w.memory ≡ created (of_int i) m
    → query (next m) get_int w ≡ ok (i, w)
unfolding query get_int
query_int i w m e =
    let found : deref (next m) w.memory ≡ ok (of_int i) = rw e (deref-get_new (of_int i) m) in
    rw found refl

add_length-pos :
    (n l : ℕ) (w : World)
    → Collected n w.parser
    → n + l < 2 ^ 63
    → add_length (pos l) w
      ≡ ok (
        tt,
        record w {
          parser = record w.parser { collected_length = w.parser.collected_length +ℤ pos l };
        },
      )
add_length-pos n l w c small =
    let total : w.parser.collected_length +ℤ pos l ≡ pos (n + l) = rw c (add_pos n l) in
    unfold add_length in rw (total, lt→ltb (n + l) (2 ^ 63) small)

-- The tests after a value, in the state in which it has been read.
pub after_value-settle :
    (k : Bytes) (v : Value) (n : ℕ) (w : World) (m : Memory)
    → w.memory ≡ build v m
    → FitsLength k v
    → Collected n w.parser
    → n + own_length k v < 2 ^ 63
    → after_value k (next m) w ≡ ok (tt, record w { parser = settle k v w.parser })
unfolding build
after_value-settle k (int (pos l)) n w m e fits c small = elim (Bool-cases (is_length k)) [
  | inl yes_length ↦ elim (Bool-cases (is_info k)) [
    | inl e' ↦ unfold after_value in rw e'
    | inr e' ↦
        unfold after_value in
        rw (e', yes_length)
          (rw (query_int (pos l) w m e) (add_length-pos n l w c (rw yes_length at small)))
  ]
  | inr no_length ↦ after_value_other k (int (pos l)) _ w no_length
]
after_value-settle k (int (negsuc l)) n w m e fits c small =
    after_value_other k (int (negsuc l)) _ w fits
after_value-settle k (str b) n w m e fits c small = after_value_other k (str b) _ w fits
after_value-settle k (list xs) n w m e fits c small = after_value_other k (list xs) _ w fits
after_value-settle k (dict fs) n w m e fits c small = after_value_other k (dict fs) _ w fits
