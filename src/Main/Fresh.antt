-- ===== src/Main/Fresh.antt =====
-- A run of `main` that finds no bitfield file.
use btor.Base.{ℕ, ◌≡◌, refl, sym, true, none, some, List, [], ◌++◌, ◌∙◌}
use btor.Base.{Bytes, codes, take}
use btor.Base.Outcome.{ok}
use btor.Bencode.{Fields, Items, dict, list, encode}
use btor.Cursor.{World, new_world}
use btor.Files.Laws.{contents-write_all}
use btor.Files.{Files, zeros, create_empty_file}
use btor.Main.Again.{main_program-main_program}
use btor.Main.Connects.{connects}
use btor.Main.Runs.{Starts, Stored, Answers, state_of, main_program-Starts}
use btor.Announce.PeerId.{generate_id-digits}
use btor.Torrent.{new_metainfo}
use btor.Main.{System, Session, main_program, load_state}
use btor.Memory.Lookup.{field_of}
use btor.Metainfo.{get_bitfield_size}
use btor.Parser.Results.{Prints}
use btor.Torrent.Laws.{Torrent, IsTorrent, fields, metainfo_of, load_torrent-encode}
use btor.Tracker.Laws.{AllPeers, Numbers, peers_from, calls_for}
use btor.Hash.{get_sha1}

-- The torrent file holds the print of `t`; there is no bitfield file, and one can be written.
pub record Unsaved (files : Files) (t : Torrent) : Type 0 where
  pub is_torrent : IsTorrent t
  pub prints : Prints (dict (fields t)) [] 0 new_world
  pub torrent_file :
      files.contents (codes "ubuntu2010.torrent") ≡ some (encode (dict (fields t)) ++ [])
  pub no_bitfield : files.contents (codes "ubuntu2010.torrentbf") ≡ none
  pub can_write : files.writable (codes "ubuntu2010.torrentbf") ≡ true

module _ (sys : System) (t : Torrent) (files : Files) (size : ℕ) (unsaved : Unsaved files t)
    (sized : get_bitfield_size sys.to_double (get_sha1 sys.sha1 sys.vector_bytes (metainfo_of t 0))
      ≡ ok size) where
  abbrev with_zeros : Files
  with_zeros = create_empty_file (codes "ubuntu2010.torrentbf") size files

  with_zeros-Stored : Stored with_zeros t (zeros size)
  unfolding create_empty_file
  with_zeros-Stored = record {
    is_torrent = unsaved.is_torrent;
    prints = unsaved.prints;
    torrent_file =
        unfold btor.Files.write_all btor.Files.put btor.Base.bytes_eq in
        rw unsaved.can_write unsaved.torrent_file;
    bitfield_file =
        contents-write_all (codes "ubuntu2010.torrentbf") (zeros size) files unsaved.can_write;
  }

  module _ (fs : Fields) (starts : Starts sys) (answers : Answers sys t fs) where
    -- Both runs load the same state.
    load_state-zeros :
        (id : Bytes)
        → (w' : World) × (load_state sys
              (record (state_of sys t fs starts answers id []) { metainfo = new_metainfo })
              files
              new_world
            ≡ ok (state_of sys t fs starts answers id (zeros size), with_zeros, w'))
          × (load_state sys
                (record (state_of sys t fs starts answers id []) { metainfo = new_metainfo })
                with_zeros
                new_world
              ≡ ok (state_of sys t fs starts answers id (zeros size), with_zeros, w'))
    unfolding load_state btor.Files.read_file btor.Files.load_bitfield
        btor.Files.does_bitfield_file_exist btor.Files.read_bitfield
    load_state-zeros id =
        let (w', runs, _) =
          load_torrent-encode sys.sha1 sys.vector_bytes t 0 new_world unsaved.is_torrent
            unsaved.prints refl refl in
        let stored = with_zeros-Stored in
        (
          w',
          rw (unsaved.torrent_file, runs, unsaved.no_bitfield, sized)
              (rw stored.bitfield_file refl),
          rw (stored.torrent_file, runs, stored.bitfield_file) refl,
        )

    main_program-zeros : main_program sys files ≡ main_program sys with_zeros
    main_program-zeros =
        let (id, made, _, _) = generate_id-digits sys.rands starts.rolls in
        let (w', loads, loads') = load_state-zeros id in
        main_program-Starts sys t fs starts answers files with_zeros id (zeros size) w' made loads
        ∙ sym (
            main_program-Starts sys t fs starts answers with_zeros with_zeros id (zeros size) w'
              made loads')

    -- Under the conditions of a whole run, but without a bitfield file, where one can be written and
    -- `getBitfieldSize` gives a size, the run does what it does on a bitfield file of that many
    -- zeros: it succeeds, with these zeros as its bitfield. The next run, in a process of its own
    -- where the library, the tracker and the system may answer otherwise, finds these zeros in the
    -- file, has the same metainfo but for the raw hash, and connects to the first six peers of its
    -- own tracker's list.
    pub main_program-Unsaved :
        (sys' : System) (fs' : Fields) (starts' : Starts sys') (answers' : Answers sys' t fs')
        (numbers : Numbers fs) (numbers' : Numbers fs') (xs xs' : Items) (ps ps' : List (Bytes × ℕ))
        → sys'.sha1 ≡ sys.sha1
        → field_of (codes "peers") fs ≡ some (list xs)
        → AllPeers xs ps
        → field_of (codes "peers") fs' ≡ some (list xs')
        → AllPeers xs' ps'
        → (main_program sys files ≡ main_program sys with_zeros)
          × (s s' : Session) × (main_program sys files ≡ ok s)
          × (main_program sys' s.files ≡ ok s')
          × (record s'.state.metainfo { info_hash_raw = s.state.metainfo.info_hash_raw }
              ≡ s.state.metainfo)
          × (s.state.bitfield ≡ zeros size)
          × (s'.state.bitfield ≡ zeros size)
          × (s'.calls ≡ connects (take 6 (peers_from sys'.net 0 ps' [])) (calls_for ps' []))
    main_program-Unsaved sys' fs' starts' answers' numbers numbers' xs xs' ps ps' same e all e'
          all' =
        let (s, s', runs, again, meta, _, bitfield, bitfield', calls) =
          main_program-main_program sys sys' t fs fs' starts starts' answers answers' with_zeros
            (zeros size) numbers numbers' xs xs' ps ps' same with_zeros-Stored e all e' all' in
        (
          main_program-zeros,
          s,
          s',
          main_program-zeros ∙ runs,
          again,
          meta,
          bitfield,
          bitfield',
          calls,
        )
