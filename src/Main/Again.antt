-- ===== src/Main/Again.antt =====
-- A second run of `main` after the first.
use btor.Base.{ℕ, ◌≡◌, inl, inr, refl, ap, some, List, []}
use btor.Base.{Bytes, codes, bytes_eq, take, Bool-cases}
use btor.Base.Outcome.{ok}
use btor.Bencode.{Fields, Items, list}
use btor.Files.{Files, write_bitfield, write_all, put}
use btor.Hash.{get_sha1}
use btor.Main.Connects.{connects}
use btor.Main.Runs.{Starts, Stored, Answers, main_program-Answers}
use btor.Main.{System, Session, main_program}
use btor.Memory.Lookup.{field_of}
use btor.Metainfo.{BState}
use btor.Torrent.Laws.{Torrent}
use btor.Tracker.Laws.{AllPeers, Numbers, peers_from, calls_for}

-- The bitfield is written to no other file than its own.
Stored-write_bitfield :
    {t : Torrent} (files : Files) (bits : Bytes) (state : BState)
    → state.bitfield ≡ bits
    → Stored files t bits
    → Stored (write_bitfield (codes "ubuntu2010.torrentbf") state files) t bits
unfolding write_bitfield write_all put bytes_eq
Stored-write_bitfield files bits state same stored =
    elim (Bool-cases (files.writable (codes "ubuntu2010.torrentbf"))) [
      | inl e ↦ record {
        is_torrent = stored.is_torrent;
        prints = stored.prints;
        torrent_file = rw e stored.torrent_file;
        bitfield_file = rw e (ap some same);
      }
      | inr e ↦ record {
        is_torrent = stored.is_torrent;
        prints = stored.prints;
        torrent_file = rw e stored.torrent_file;
        bitfield_file = rw e stored.bitfield_file;
      }
    ]

-- A second run, in a process of its own: the library and the system answer otherwise than in the
-- first, with other random numbers, another tracker's dictionary and other bytes in the place of the
-- raw hash; SHA-1 alone is the same function. Under the conditions of a whole run, both runs
-- succeed: the second has the metainfo of the first but for the raw hash, which is that of its own
-- process, and the bitfield that the first one had read, and connects to the first six peers of its
-- own tracker's list.
pub main_program-main_program :
    (sys sys' : System) (t : Torrent) (fs fs' : Fields) (starts : Starts sys)
    (starts' : Starts sys') (answers : Answers sys t fs) (answers' : Answers sys' t fs')
    (files : Files) (bits : Bytes) (numbers : Numbers fs) (numbers' : Numbers fs') (xs xs' : Items)
    (ps ps' : List (Bytes × ℕ))
    → sys'.sha1 ≡ sys.sha1
    → Stored files t bits
    → field_of (codes "peers") fs ≡ some (list xs)
    → AllPeers xs ps
    → field_of (codes "peers") fs' ≡ some (list xs')
    → AllPeers xs' ps'
    → (s s' : Session) × (main_program sys files ≡ ok s)
      × (main_program sys' s.files ≡ ok s')
      × (record s'.state.metainfo { info_hash_raw = s.state.metainfo.info_hash_raw }
          ≡ s.state.metainfo)
      × (s'.state.metainfo.info_hash_raw ≡ sys'.vector_bytes (sys.sha1 s.state.metainfo.infodict))
      × (s.state.bitfield ≡ bits)
      × (s'.state.bitfield ≡ bits)
      × (s'.calls ≡ connects (take 6 (peers_from sys'.net 0 ps' [])) (calls_for ps' []))
unfolding get_sha1
main_program-main_program sys sys' t fs fs' starts starts' answers answers' files bits numbers
      numbers' xs xs' ps ps' same stored e all e' all' =
    let (s, runs, _, meta, bitfield, left) =
      main_program-Answers sys t fs starts answers files bits numbers xs ps stored e all in
    let stored' : Stored s.files t bits =
      rw left (Stored-write_bitfield files bits s.state bitfield stored) in
    let (s', runs', calls', meta', bitfield', _) =
      main_program-Answers sys' t fs' starts' answers' s.files bits numbers' xs' ps' stored' e'
        all' in
    (
      s,
      s',
      runs,
      runs',
      rw (meta, meta', same) refl,
      rw (meta, meta', same) refl,
      bitfield,
      bitfield',
      calls',
    )
