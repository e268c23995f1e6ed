-- ===== src/Announce/PeerId.antt =====
-- `generateId`: the client's prefix and twelve random digits.
use btor.Base.{
  ℕ, zero, suc, ◌+◌, ◌%◌, ◌<◌, ◌≤◌, ◌≡◌, refl, ap, some, List, [], ◌∷◌, ◌++◌, ◌∙◌, arith,
  append-nil, append_assoc,
}
use btor.Base.{Bytes, codes, length, length-append, take, lt→ltb, le→ltb_false, length-take}
use btor.Base.Decimal.{decimal, decimal_fuel}
use btor.Announce.{id_loop, generate_id}

-- The last digit of each number.
abbrev pub last_digits : List ℕ → Bytes
last_digits [] = []
last_digits (r ∷ rs) = (b'0' + r % 10) ∷ last_digits rs

pub decimal-digit : (n : ℕ) → n < 10 → decimal n ≡ (b'0' + n) ∷ []
unfolding decimal
decimal-digit n h = rw (lt→ltb n 10 h, decimal_fuel)

id_loop-digits :
    (k : ℕ) (rands : List ℕ) (acc : Bytes)
    → length acc + k ≡ 20
    → k ≤ length rands
    → id_loop acc rands ≡ some (acc ++ last_digits (take k rands))
unfolding id_loop
id_loop-digits zero [] acc full h = rw append-nil (rw (le→ltb_false (length acc) 20 (omega arith)))
id_loop-digits zero (r ∷ rands) acc full h =
    rw append-nil (rw (le→ltb_false (length acc) 20 (omega arith)))
id_loop-digits (suc k) [] acc full h = absurd (omega arith)
id_loop-digits (suc k) (r ∷ rands) acc full h =
    let digit = decimal-digit (r % 10) (omega arith) in
    let acc' = acc ++ (b'0' + r % 10) ∷ [] in
    rw (lt→ltb (length acc) 20 (omega arith)) (
      rw digit (
        id_loop-digits k rands acc' (omega (arith, length-append acc ((b'0' + r % 10) ∷ [])))
          (omega arith)
        ∙ rw append_assoc))

length-last_digits : (rs : List ℕ) → length (last_digits rs) ≡ length rs
length-last_digits [] = refl
length-last_digits (r ∷ rs) = ap suc (length-last_digits rs)

-- With at least twelve numbers from `rand()` the loop ends: the id is the prefix and the last digit
-- of each of the first twelve, and it has 20 characters.
pub generate_id-digits :
    (rands : List ℕ)
    → 12 ≤ length rands
    → (id : Bytes) × (generate_id rands ≡ some id)
      × (id ≡ codes "-btor01-" ++ last_digits (take 12 rands))
      × (length id ≡ 20)
unfolding generate_id
generate_id-digits rands h = (
  codes "-btor01-" ++ last_digits (take 12 rands),
  id_loop-digits 12 rands (codes "-btor01-") refl h,
  refl,
  omega (arith, length-last_digits (take 12 rands), length-take 12 rands h),
)
