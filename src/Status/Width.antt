-- ===== src/Status/Width.antt =====
-- How long the status bar is.
use btor.Base.{ℕ, zero, suc, ◌*◌, ◌%◌, ◌<◌, ◌≡◌, refl, [], ◌∷◌, ◌++◌, inl, inr, arith}
use btor.Base.{Bytes, length, length-append, replicate, ltb, leb, ◌==◌, Bool-cases}
use btor.Base.Decimal.{decimal_int}
use btor.Base.Int.{pos}
use btor.Announce.PeerId.{decimal-digit}
use btor.Status.{cell, middle_bit, show_status}

length-cell : (t n i : ℕ) → n < 10 → length (cell (pos t) (pos n) i) ≡ 2
unfolding cell decimal_int
length-cell t n i h =
    let digit = decimal-digit n h in
    elim (Bool-cases (i == t)) [
      | inl e ↦ elim (Bool-cases (leb n 4)) [
        | inl low ↦ rw (e, low, digit) refl
        | inr high ↦ rw (e, high, digit) refl
      ]
      | inr e ↦ elim (Bool-cases (ltb i t)) [
        | inl full ↦ rw (e, full) refl
        | inr left ↦ rw (e, left) refl
      ]
    ]

length-middle_bit :
    (rounds t n i : ℕ) → n < 10 → length (middle_bit rounds (pos t) (pos n) i) ≡ 2 * rounds
unfolding middle_bit
length-middle_bit zero t n i h = refl
length-middle_bit (suc rounds) t n i h = omega (
  arith,
  length-append (cell (pos t) (pos n) i) (middle_bit rounds (pos t) (pos n) (suc i)),
  length-cell t n i h,
  length-middle_bit rounds t n (suc i) h,
)

-- For a percentage that is not negative, above one too, the bar has 22 characters, as many as the
-- backspaces before it: each call writes exactly over the bar of the call before.
pub length-show_status :
    (tens hundreds : ℕ)
    → (bar : Bytes) × (show_status (pos tens) (pos hundreds) ≡ replicate 22 8 ++ bar)
      × (length bar ≡ 22)
unfolding show_status
length-show_status tens hundreds =
    let middle = middle_bit 10 (pos tens) (pos (hundreds % 10)) 0 in
    (
      b'[' ∷ (middle ++ b']' ∷ []),
      refl,
      omega (
        arith,
        length-append middle (b']' ∷ []),
        length-middle_bit 10 tens (hundreds % 10) 0 (omega arith),
      ),
    )
