-- ===== src/Metainfo/Size.antt =====
-- What `getBitfieldSize` gives for a torrent, against the bits that its pieces need.
use native.Mathlib.Nat.{le-div_iff_mul-le, div-lt_iff_lt-mul, mul-le-mul_right, div-le_of_le-mul}
use btor.Base.{ℕ, zero, suc, ◌-◌, ◌*◌, ◌/◌, ◌%◌, ◌^◌, ◌<◌, ◌≤◌, ◌≡◌, ◌⊎◌, inl, inr, refl, ap, arith}
use btor.Base.{Bytes, length, ne→==_false, lt→ltb, ltb, Bool-cases, ltb→lt}
use btor.Base.Int.{pos}
use btor.Base.Outcome.{ok, undefined}
use btor.Bitfield.{set_bit_in_bitfield}
use btor.Bitfield.Laws.{AllBytes, is_bit_set-set_bit, set_bit-outside}
use btor.Files.{zeros}
use btor.Metainfo.{Metainfo, ceil, get_bitfield_size}

-- A `double` holds every integer up to 2^53.
abbrev pub IsExact : (ℕ → ℕ) → Type 0
IsExact to_double = (n : ℕ) → n ≤ 2 ^ 53 → to_double n ≡ n

ceil-IsExact :
    (to_double : ℕ → ℕ) (n : ℕ) → IsExact to_double → n ≤ 2 ^ 53 → ceil to_double n ≡ ok n
unfolding ceil
ceil-IsExact to_double n exact small = rw (exact n small) (rw (lt→ltb n (2 ^ 64) (omega arith)))

length-zeros : (n : ℕ) → length (zeros n) ≡ n
unfolding zeros
length-zeros zero = refl
length-zeros (suc n) = ap suc (length-zeros n)

zeros-AllBytes : (n : ℕ) → AllBytes (zeros n)
unfolding zeros
zeros-AllBytes zero = tt
zeros-AllBytes (suc n) = (omega arith, zeros-AllBytes n)

div-le : (a b : ℕ) → 0 < b → a / b ≤ a
div-le a b h = div-le_of_le-mul b (omega (arith, mul-le-mul_right {m = 1} {n = b} a (omega arith)))

get_bitfield_size-pieces :
    (to_double : ℕ → ℕ) (m : Metainfo) (t : ℕ)
    → IsExact to_double
    → m.total_length ≡ pos t
    → t ≤ 2 ^ 53
    → 0 < m.piece_length
    → get_bitfield_size to_double m ≡ ok (t / m.piece_length / 8)
unfolding get_bitfield_size
get_bitfield_size-pieces to_double m t exact total small some_length =
    let pieces = div-le t m.piece_length some_length in
    let wide : t % 2 ^ 64 ≡ t = omega arith in
    rw (ne→==_false m.piece_length 0 (omega arith), total, wide)
      (rw (ceil-IsExact to_double (t / m.piece_length) exact (omega (arith, pieces)))
        (ceil-IsExact to_double (t / m.piece_length / 8) exact (omega (arith, pieces))))

-- A torrent of `t` bytes, where 0 < t ≤ 2^53 and the piece length is not zero, has its last byte in
-- the piece of index (t - 1) / piece_length, which is to fit into an `int`. A `double` being exact up
-- to 2^53: in a new bitfield of the size that `getBitfieldSize` gives, the bit of that piece can be
-- set only if the pieces fill the bytes of the bitfield exactly; otherwise setting it is undefined,
-- since the byte lies outside the vector: the divisions have cut off what `ceil` was meant to round
-- up.
pub get_bitfield_size-set_bit :
    (to_double : ℕ → ℕ) (m : Metainfo) (t : ℕ)
    → IsExact to_double
    → m.total_length ≡ pos t
    → 0 < t
    → t ≤ 2 ^ 53
    → 0 < m.piece_length
    → (t - 1) / m.piece_length < 2 ^ 31
    → (s : ℕ) × (get_bitfield_size to_double m ≡ ok s)
      × (((s * 8 * m.piece_length ≡ t)
            × ((b : Bytes) × (set_bit_in_bitfield (zeros s) (pos ((t - 1) / m.piece_length))
                  ≡ ok b)))
          ⊎ ((s * 8 * m.piece_length < t)
              × (set_bit_in_bitfield (zeros s) (pos ((t - 1) / m.piece_length)) ≡ undefined)))
get_bitfield_size-set_bit to_double m t exact total more small some_length fits =
    let pl = m.piece_length in
    let s = t / pl / 8 in
    let last = (t - 1) / pl in
    let whole : s * 8 * pl ≤ t = (le-div_iff_mul-le some_length).0 (omega arith) in
    (
      s,
      get_bitfield_size-pieces to_double m t exact total small some_length,
      elim (Bool-cases (ltb (s * 8 * pl) t)) [
        | inl less ↦
            let short = ltb→lt (s * 8 * pl) t less in
            let outside : s * 8 ≤ last = (le-div_iff_mul-le some_length).1 (omega (arith, short)) in
            inr
              (short, set_bit-outside (zeros s) last (omega (arith, length-zeros s, outside)) fits)
        | inr full ↦
            let exactly : s * 8 * pl ≡ t = ground (arith, whole) in
            let inside : last < s * 8 =
              (div-lt_iff_lt-mul some_length).1 (omega (arith, exactly)) in
            let (b, is_set, _, _, _) =
              is_bit_set-set_bit (zeros s) last last (zeros-AllBytes s)
                (omega (arith, length-zeros s, inside)) fits fits in
            inl (exactly, (b, is_set))
      ],
    )
