-- ===== src/Files/Laws.antt =====
-- Bitfields that are written and loaded again.
use btor.Base.{ℕ, ◌≡◌, ◌⊎◌, inl, inr, refl, sym, true, false, ◌&&◌, none, some, []}
use btor.Base.{Bytes, Bool-cases, Option-cases, bytes_eq, bytes_eq_refl, if◌then◌else◌}
use btor.Base.Outcome.{ok, bind-eq-ok}
use btor.Metainfo.{BState, get_bitfield_size}
use btor.Files.{
  Files, write_all, write_bitfield, read_bitfield, load_bitfield, bitfield_file_name, put, zeros,
  create_empty_file, does_bitfield_file_exist,
}

pub contents-write_all :
    (name bytes : Bytes) (files : Files)
    → files.writable name ≡ true
    → (write_all name bytes files).contents name ≡ some bytes
unfolding write_all put
contents-write_all name bytes files can = rw (can, bytes_eq_refl name)

-- If the bitfield file can be written, what a session writes at its end is what the next session on
-- the same torrent loads, whatever stood in the file before; loading it changes no file.
pub load_bitfield-write_bitfield :
    (to_double : ℕ → ℕ) (last next : BState) (files : Files)
    → next.filename ≡ last.filename
    → files.writable (bitfield_file_name last.filename) ≡ true
    → load_bitfield to_double next (write_bitfield (bitfield_file_name last.filename) last files)
      ≡ ok (
        record next { bitfield = last.bitfield },
        write_bitfield (bitfield_file_name last.filename) last files,
      )
unfolding load_bitfield write_bitfield read_bitfield does_bitfield_file_exist
load_bitfield-write_bitfield to_double last next files same can =
    rw (same) (rw (contents-write_all (bitfield_file_name last.filename) last.bitfield files can))

-- Where there is no bitfield file, one can be written, and `getBitfieldSize` gives a size, a
-- bitfield of that many zeros is loaded and stands in the file; loading again gives the same
-- bitfield and changes no file.
pub load_bitfield-twice :
    (to_double : ℕ → ℕ) (state : BState) (files : Files) (s : ℕ)
    → does_bitfield_file_exist (bitfield_file_name state.filename) files ≡ false
    → files.writable (bitfield_file_name state.filename) ≡ true
    → get_bitfield_size to_double state.metainfo ≡ ok s
    → (files' : Files) × (load_bitfield to_double state files
        ≡ ok (record state { bitfield = zeros s }, files'))
      × (load_bitfield to_double (record state { bitfield = zeros s }) files'
          ≡ ok (record state { bitfield = zeros s }, files'))
unfolding load_bitfield read_bitfield create_empty_file
load_bitfield-twice to_double state files s missing can size =
    let name = bitfield_file_name state.filename in
    let at = contents-write_all name (zeros s) files can in
    (
      write_all name (zeros s) files,
      rw (missing, size) (rw at),
      unfold does_bitfield_file_exist in rw at,
    )

-- A new file, read again.
read_bitfield-create_empty_file :
    (name : Bytes) (n : ℕ) (files : Files)
    → files.contents name ≡ none
    → read_bitfield name (create_empty_file name n files)
      ≡ (if files.writable name then zeros n else [])
unfolding read_bitfield create_empty_file write_all put
read_bitfield-create_empty_file name n files missing = elim (Bool-cases (files.writable name)) [
  | inl can ↦ rw can (rw (bytes_eq_refl name) refl)
  | inr cannot ↦ rw cannot (rw missing refl)
]

-- What loading the bitfield gives, where it returns: the contents of the bitfield file, and the files
-- as they were; or, where there is none, what can be read after the new file has been made.
pub load_bitfield-Loads :
    (to_double : ℕ → ℕ) (state state' : BState) (files files' : Files)
    → load_bitfield to_double state files ≡ ok (state', files')
    → (state' ≡ record state { bitfield = state'.bitfield })
      × (((files.contents (bitfield_file_name state.filename) ≡ some state'.bitfield)
            × (files' ≡ files))
          ⊎ ((files.contents (bitfield_file_name state.filename) ≡ none)
              × ((n : ℕ) × (get_bitfield_size to_double state.metainfo ≡ ok n)
                  × (files' ≡ create_empty_file (bitfield_file_name state.filename) n files)
                  × (state'.bitfield ≡ (
                      if files.writable (bitfield_file_name state.filename)
                      then zeros n
                      else [])))))
unfolding load_bitfield does_bitfield_file_exist
load_bitfield-Loads to_double state state' files files' e =
    let name = bitfield_file_name state.filename in
    elim (Option-cases (files.contents name)) [
      | inr (bits, there) ↦
          let run = rw there at e in
          let held : read_bitfield name files ≡ bits = unfold read_bitfield in rw there in
          let same : record state { bitfield = read_bitfield name files } ≡ state' = cc run in
          let kept : files ≡ files' = cc run in rw (← same, held) (refl, inl (there, sym kept))
      | inl missing ↦
          let (n, sized, run) =
            bind-eq-ok (get_bitfield_size to_double state.metainfo) _ (rw missing at e) in
          let new = create_empty_file name n files in
          let same : record state { bitfield = read_bitfield name new } ≡ state' = cc run in
          let made : new ≡ files' = cc run in
          rw (← same) (
            refl,
            inr (
              missing,
              (n, sized, sym made, read_bitfield-create_empty_file name n files missing),
            ),
          )
    ]

-- What stands under each name after a bitfield has been written, also over a new file.
pub contents-write_bitfield :
    (name other : Bytes) (state : BState) (files : Files)
    → (write_bitfield name state files).contents other ≡ (
        if files.writable name && bytes_eq other name
        then some state.bitfield
        else files.contents other)
unfolding write_bitfield write_all put
contents-write_bitfield name other state files = elim (Bool-cases (files.writable name)) [
  | inl can ↦ rw can refl
  | inr cannot ↦ rw cannot refl
]

pub write_bitfield-create_empty_file :
    (name other : Bytes) (n : ℕ) (state : BState) (files : Files)
    → (write_bitfield name state (create_empty_file name n files)).contents other
      ≡ (write_bitfield name state files).contents other
unfolding write_bitfield create_empty_file write_all put
write_bitfield-create_empty_file name other n state files =
    elim (Bool-cases (files.writable name)) [
      | inl can ↦ elim (Bool-cases (bytes_eq other name)) [
        | inl same ↦ rw can (rw can (rw same refl))
        | inr differs ↦ rw can (rw can (rw differs refl))
      ]
      | inr cannot ↦ rw cannot (rw cannot refl)
    ]
