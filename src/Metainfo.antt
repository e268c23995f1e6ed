-- ===== src/Metainfo.antt =====
-- The structs of btor/btor.h, and `getBitfieldSize` of btor/butils.cpp.
pub mod Size
use btor.Base.{ℕ, ◌-◌, ◌/◌, ◌%◌, ◌^◌, Bool, List}
use btor.Base.{Bytes, ltb, ◌==◌, if◌then◌else◌}
use btor.Base.Int.{ℤ, pos, negsuc}
use btor.Base.Outcome.{Outcome, ok, undefined, bind}

pub record Fileinfo : Type 0 where
  pub name : Bytes
  pub length : ℤ

pub record Metainfo : Type 0 where
  pub announce : Bytes
  pub infodict : Bytes
  pub info_hash_hex : Bytes
  pub info_hash_raw : Bytes
  pub fileinfo : List Fileinfo
  pub total_length : ℤ
  pub piece_length : ℕ
  pub pieces : Bytes

-- `metainfo` is a pointer that is not null: what it points to stands here.
pub record BState : Type 0 where
  pub filename : Bytes
  pub big_endian : Bool
  pub metainfo : Metainfo
  pub unique_id : Bytes
  pub bitfield : Bytes

-- A signed value as it is converted to `uint64_t`.
abbrev pub to_uint64 : ℤ → ℕ
to_uint64 (pos n) = n % 2 ^ 64
to_uint64 (negsuc n) = 2 ^ 64 - 1 - n % 2 ^ 64

-- `ceil` of an integer, as an `unsigned long long`: `to_double` gives the `double` that the integer is
-- converted to, which `ceil` leaves as it is; the conversion back is undefined out of range.
unfoldable pub ceil : (ℕ → ℕ) → ℕ → Outcome ℕ
ceil to_double n = if ltb (to_double n) (2 ^ 64) then ok (to_double n) else undefined

-- A division by zero is undefined.
unfoldable pub get_bitfield_size : (ℕ → ℕ) → Metainfo → Outcome ℕ
get_bitfield_size to_double m =
    if m.piece_length == 0
    then undefined
    else bind (ceil to_double (to_uint64 m.total_length / m.piece_length))
        λ number_of_pieces. ceil to_double (number_of_pieces / 8)
