-- ===== src/Bitfield/Laws.antt =====
-- `setBitInBitfield` and `isBitInBitfieldSet` together.
use btor.Base.{
  ℕ, zero, suc, ◌/◌, ◌^◌, ◌<◌, ◌≤◌, ap, ◌≡◌, refl, inl, inr, Bool, true, false, some, [], ◌∷◌, ◌∙◌,
  arith,
}
use btor.Base.{
  Bytes, length, get_elem?, set, ◌==◌, ==_iff, if◌then◌else◌, Bool-cases, length-set,
  get_elem?-set_self, get_elem?-set_ne, get_elem?-lt, get_elem?-none,
}
use btor.Base.Int.{pos}
use btor.Base.Outcome.{ok, undefined}
use btor.Bitfield.Bits.{bit_at, set_at, bit_at-set_at}
use btor.Bitfield.{
  as_int, target_byte, bit_offset, set_bit, test_bit, set_bit_in_bitfield, is_bit_in_bitfield_set,
}

-- the elements of a `std::vector<uint8_t>`
abbrev pub AllBytes : Bytes → Type 0
AllBytes [] = Unit {0}
AllBytes (x ∷ xs) = (x < 256) × AllBytes xs

AllBytes-get : (xs : Bytes) (i : ℕ) {x : ℕ} → AllBytes xs → get_elem? xs i ≡ some x → x < 256
AllBytes-get [] i h e = cc
AllBytes-get (y ∷ xs) zero h e = ground arith
AllBytes-get (y ∷ xs) (suc i) h e = AllBytes-get xs i h.1 e

AllBytes-set : (xs : Bytes) (i x : ℕ) → AllBytes xs → x < 256 → AllBytes (set xs i x)
AllBytes-set [] i x h lt = tt
AllBytes-set (y ∷ xs) zero x h lt = (lt, h.1)
AllBytes-set (y ∷ xs) (suc i) x h lt = (h.0, AllBytes-set xs i x h.1 lt)

as_int-pos : (b : ℕ) → b < 2 ^ 31 → as_int (pos b) ≡ pos b
unfolding as_int
as_int-pos b h = ground arith

is_set-pos :
    (xs : Bytes) (b : ℕ) → b < 2 ^ 31 → is_bit_in_bitfield_set xs (pos b) ≡ test_bit xs (pos b)
unfolding is_bit_in_bitfield_set test_bit
is_set-pos xs b h = rw (as_int-pos b h)

set_bit-pos :
    (xs : Bytes) (b : ℕ) → b < 2 ^ 31 → set_bit_in_bitfield xs (pos b) ≡ set_bit xs (pos b)
unfolding set_bit_in_bitfield set_bit
set_bit-pos xs b h = rw (as_int-pos b h)

is_set-some :
    (xs : Bytes) (b : ℕ) {x : ℕ}
    → get_elem? xs (target_byte b) ≡ some x
    → test_bit xs (pos b) ≡ ok (bit_at x (bit_offset b))
unfolding test_bit btor.Bitfield.test_byte
is_set-some xs b e = rw e

-- The bit of the byte that was written.
same_byte :
    (b b' x : ℕ)
    → x < 256
    → target_byte b' ≡ target_byte b
    → bit_at (set_at x (bit_offset b)) (bit_offset b')
      ≡ (if b == b' then true else bit_at x (bit_offset b'))
same_byte b b' x lt same = elim (Bool-cases (b == b')) [
  | inl e ↦
      let equal = (==_iff b b').0 e in
      let offsets : (bit_offset b == bit_offset b') ≡ true = ground arith in
      rw e
        (bit_at-set_at x (bit_offset b) (bit_offset b') lt (omega arith) (omega arith) ∙ rw offsets)
  | inr e ↦
      let differ : (bit_offset b == bit_offset b') ≡ false = ground arith in
      rw e
        (bit_at-set_at x (bit_offset b) (bit_offset b') lt (omega arith) (omega arith) ∙ rw differ)
]

is_set-cong :
    (xs ys : Bytes) (b : ℕ)
    → get_elem? xs (target_byte b) ≡ get_elem? ys (target_byte b)
    → test_bit xs (pos b) ≡ test_bit ys (pos b)
unfolding test_bit
is_set-cong xs ys b e = rw e

ok_if : (t u : Bool) → ok (if t then true else u) ≡ (if t then ok true else ok u)
ok_if true u = refl
ok_if false u = refl

is_set-after :
    (xs : Bytes) (b b' x : ℕ)
    → x < 256
    → b / 8 < length xs
    → get_elem? xs (target_byte b) ≡ some x
    → test_bit (set xs (target_byte b) (set_at x (bit_offset b))) (pos b')
      ≡ (if b == b' then ok true else test_bit xs (pos b'))
is_set-after xs b b' x lt inside e = elim (Bool-cases (target_byte b' == target_byte b)) [
  | inl t ↦
      let same = (==_iff (target_byte b') (target_byte b)).0 t in
      let y = set_at x (bit_offset b) in
      let written : get_elem? (set xs (target_byte b) y) (target_byte b') ≡ some y =
        rw same (get_elem?-set_self xs (target_byte b) y inside) in
      let old : test_bit xs (pos b') ≡ ok (bit_at x (bit_offset b')) =
        is_set-some xs b' (rw same e) in
      is_set-some (set xs (target_byte b) y) b' written
      ∙ ap ok (same_byte b b' x lt same)
      ∙ ok_if (b == b') (bit_at x (bit_offset b'))
      ∙ rw old
  | inr t ↦
      let other : (b == b') ≡ false = ground arith in
      let y = set_at x (bit_offset b) in
      is_set-cong (set xs (target_byte b) y) xs b'
        (get_elem?-set_ne xs (target_byte b) (target_byte b') y (ground arith))
      ∙ rw other
]

-- In a vector of bytes, setting a bit whose byte is in the vector sets that bit and changes no other;
-- the size stays, and the elements stay bytes. The bit numbers are below 2^31, as an `int` is.
pub is_bit_set-set_bit :
    (bitfield : Bytes) (b b' : ℕ)
    → AllBytes bitfield
    → b / 8 < length bitfield
    → b < 2 ^ 31
    → b' < 2 ^ 31
    → (bitfield' : Bytes) × (set_bit_in_bitfield bitfield (pos b) ≡ ok bitfield')
      × (is_bit_in_bitfield_set bitfield' (pos b')
          ≡ (if b == b' then ok true else is_bit_in_bitfield_set bitfield (pos b')))
      × (length bitfield' ≡ length bitfield)
      × AllBytes bitfield'
is_bit_set-set_bit bitfield b b' all inside small small' =
    let (x, e) = get_elem?-lt bitfield (target_byte b) inside in
    let lt = AllBytes-get bitfield (target_byte b) all e in
    let y = set_at x (bit_offset b) in
    (
      set bitfield (target_byte b) y,
      rw (set_bit-pos bitfield b small) (unfold set_bit btor.Bitfield.set_byte in rw e),
      rw (is_set-pos (set bitfield (target_byte b) y) b' small', is_set-pos bitfield b' small')
          (is_set-after bitfield b b' x lt inside e),
      length-set bitfield (target_byte b) y,
      AllBytes-set bitfield (target_byte b) y all (omega arith),
    )

-- Outside the vector setting is undefined.
pub set_bit-outside :
    (bitfield : Bytes) (b : ℕ)
    → length bitfield ≤ b / 8
    → b < 2 ^ 31
    → set_bit_in_bitfield bitfield (pos b) ≡ undefined
set_bit-outside bitfield b h small =
    let out = get_elem?-none bitfield (target_byte b) h in
    rw (set_bit-pos bitfield b small) (unfold set_bit btor.Bitfield.set_byte in rw out)
