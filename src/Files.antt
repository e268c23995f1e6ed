-- ===== src/Files.antt =====
-- `fileio` of btor/bfileio.cpp over a file system, and the part of `main` (btor/btor.cpp) that loads
-- the bitfield.
pub mod Laws
use btor.Base.{ℕ, zero, suc, ◌+◌, ◌%◌, ◌^◌, Bool, true, false, Option, none, some, [], ◌∷◌, ◌++◌}
use btor.Base.{Bytes, codes, bytes_eq, ◌==◌, if◌then◌else◌}
use btor.Base.Outcome.{Outcome, ok, exited, bind}
use btor.Metainfo.{Metainfo, BState, get_bitfield_size}

-- What stands under each name, and which names can be opened for writing.
pub record Files : Type 0 where
  pub contents : Bytes → Option Bytes
  pub writable : Bytes → Bool

-- A file that has been opened for writing, truncated, and written.
unfoldable pub put : Bytes → Bytes → Files → Files
put filename bytes files = record files {
  contents = λ name. if bytes_eq name filename then some bytes else files.contents name;
}

-- An `ofstream` that could not be opened writes nothing.
unfoldable pub write_all : Bytes → Bytes → Files → Files
write_all filename bytes files = if files.writable filename then put filename bytes files else files

or_empty : Option Bytes → Bytes
or_empty none = []
or_empty (some bytes) = bytes

is_some : Option Bytes → Bool
is_some none = false
is_some (some bytes) = true

opened_file : Option Bytes → Outcome Bytes
opened_file none = exited 1
opened_file (some bytes) = ok bytes

-- `readFile`: what `filebuf` points to afterwards.
unfoldable pub read_file : Bytes → Files → Outcome Bytes
unfolding opened_file
read_file filename files = opened_file (files.contents filename)

unfoldable pub does_bitfield_file_exist : Bytes → Files → Bool
unfolding is_some
does_bitfield_file_exist filename files = is_some (files.contents filename)

-- A file that is missing is read as an empty one.
unfoldable pub read_bitfield : Bytes → Files → Bytes
unfolding or_empty
read_bitfield file_path files = or_empty (files.contents file_path)

-- The file is opened, and so emptied, before the test on the size.
unfoldable pub write_bitfield : Bytes → BState → Files → Files
write_bitfield filename state files = write_all filename state.bitfield files

unfoldable pub zeros : ℕ → Bytes
zeros zero = []
zeros (suc n) = 0 ∷ zeros n

-- `seekp(filesize - 1); write("", 1)`: the gap is filled with zeros. For size zero the position is
-- -1, where `seekp` fails, and nothing is written.
unfoldable pub create_empty_file : Bytes → ℕ → Files → Files
create_empty_file filename filesize files = write_all filename (zeros filesize) files

-- `createDirectory`, over the result of CreateDirectoryA.
unfoldable pub create_directory : ℕ → Outcome (Unit {0})
create_directory created = if created == 0 then ok tt else exited 1

-- `filename + "bf"`
abbrev pub bitfield_file_name : Bytes → Bytes
bitfield_file_name filename = filename ++ codes "bf"

-- The branches of `main` on an existing bitfield file; the state then holds the bitfield.
unfoldable pub load_bitfield : (ℕ → ℕ) → BState → Files → Outcome (BState × Files)
load_bitfield to_double state files =
    let name = bitfield_file_name state.filename in
    if does_bitfield_file_exist name files
    then ok (record state { bitfield = read_bitfield name files }, files)
    else bind (get_bitfield_size to_double state.metainfo) λ bitfield_size.
      let files' = create_empty_file name bitfield_size files in
      ok (record state { bitfield = read_bitfield name files' }, files')
