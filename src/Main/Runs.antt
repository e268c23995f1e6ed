-- ===== src/Main/Runs.antt =====
-- A run of `main` on a good torrent with a tracker that answers.
use btor.Base.{ℕ, ◌+◌, ◌≤◌, ◌<◌, ◌^◌, ◌≡◌, refl, ap, false, some, List, [], ◌++◌, ◌∙◌, arith}
use btor.Base.{Bytes, codes, length, take, ◌==◌}
use btor.Base.Int.{pos}
use btor.Base.Outcome.{ok}
use btor.Announce.PeerId.{generate_id-digits}
use btor.Announce.{response, generate_id, get_server_address, get_announce_path, make_get_request}
use btor.Bencode.{Fields, Items, dict, list, encode, IsReadable, total_length}
use btor.Cursor.{World, new_world}
use btor.Files.{
  Files, read_file, load_bitfield, write_bitfield, bitfield_file_name, does_bitfield_file_exist,
  read_bitfield,
}
use btor.Hash.{get_sha1}
use btor.Main.Connects.{connects, connect_peers-take}
use btor.Main.{
  System, Session, initialise, load_state, connect_peers, shake, finish, announce, main_program,
}
use btor.Memory.Erased.{delete_all-Denotes}
use btor.Memory.Lookup.{field_of}
use btor.Memory.{Memory, next, delete_all}
use btor.Metainfo.{Metainfo, BState}
use btor.Parser.Results.{Prints}
use btor.Parser.{get_collected_length}
use btor.Peer.Handshake.{get_handshake-generate_id}
use btor.Peer.{BPeer, Calls, get_handshake}
use btor.Torrent.Laws.{Torrent, IsTorrent, fields, metainfo_of, load_torrent-encode}
use btor.Torrent.{new_metainfo}
use btor.Tracker.Laws.{AllPeers, Numbers, peers_from, calls_for, tracker_response-encode}
use btor.Tracker.{Tracker, request, start_request, tracker_response}

-- The system lets the program start, and the hash has its 20 bytes.
pub record Starts (sys : System) : Type 0 where
  pub handler : (sys.set_handler == 0) ≡ false
  pub sockets : sys.sock.on_startup [] ≡ 0
  pub rolls : 12 ≤ length sys.rands
  pub raw : (ws : List ℕ) → length (sys.vector_bytes ws) ≡ 20

-- The torrent file holds the print of `t`, and there is a bitfield file.
pub record Stored (files : Files) (t : Torrent) (bits : Bytes) : Type 0 where
  pub is_torrent : IsTorrent t
  pub prints : Prints (dict (fields t)) [] 0 new_world
  pub torrent_file :
      files.contents (codes "ubuntu2010.torrent") ≡ some (encode (dict (fields t)) ++ [])
  pub bitfield_file : files.contents (codes "ubuntu2010.torrentbf") ≡ some bits

-- The tracker at the announce URL answers each request with the print of a dictionary.
pub record Answers (sys : System) (t : Torrent) (fs : Fields) : Type 0 where
  pub server : Bytes
  pub path : Bytes
  pub has_server : get_server_address sys.size_bits t.announce ≡ ok server
  pub has_path : get_announce_path sys.size_bits t.announce ≡ ok path
  pub replies : (asked : Bytes) → sys.client server asked ≡ response 200 (encode (dict fs) ++ [])
  pub readable : IsReadable (dict fs)
  pub small : length (encode (dict fs) ++ []) < 2 ^ 32
  pub room : total_length (dict (fields t)) + total_length (dict fs) < 2 ^ 63

module _ (sys : System) (t : Torrent) (fs : Fields) (starts : Starts sys)
    (answers : Answers sys t fs) where
  abbrev loaded : Metainfo
  loaded = get_sha1 sys.sha1 sys.vector_bytes (metainfo_of t 0)

  abbrev pub state_of : Bytes → Bytes → BState
  state_of id bits = record {
    filename = codes "ubuntu2010.torrent";
    big_endian = sys.big_endian;
    metainfo = loaded;
    unique_id = id;
    bitfield = bits;
  }

  request-replies :
      (metainfo : Metainfo) (id event : Bytes)
      → request sys.client answers.server answers.path metainfo id event
        ≡ ok (encode (dict fs) ++ [])
  unfolding request make_get_request
  request-replies metainfo id event = rw (answers.replies _) refl

  start_request-replies :
      (metainfo : Metainfo) (id : Bytes)
      → start_request sys.client answers.server answers.path metainfo id
        ≡ ok (encode (dict fs) ++ [])
  unfolding start_request encode
  start_request-replies metainfo id = rw (request-replies metainfo id (codes "started")) refl

  shake-state_of :
      (id bits : Bytes)
      → generate_id sys.rands ≡ some id
      → (s : Bytes) × (shake (state_of id bits) ≡ ok s)
  unfolding shake get_sha1
  shake-state_of id bits e =
      let (size, _, _) =
        get_handshake-generate_id (state_of id bits) sys.rands (starts.raw _) starts.rolls e in
      (get_handshake (state_of id bits), rw size refl)

  load_state-Stored :
      (files : Files) (bits id : Bytes)
      → Stored files t bits
      → (w' : World) × (load_state sys
            (record (state_of id []) { metainfo = new_metainfo })
            files
            new_world
          ≡ ok (state_of id bits, files, w'))
        × (get_collected_length w' ≡ pos (total_length (dict (fields t))))
  unfolding load_state read_file load_bitfield does_bitfield_file_exist read_bitfield
  load_state-Stored files bits id stored =
      let (w', runs, len) =
        load_torrent-encode sys.sha1 sys.vector_bytes t 0 new_world stored.is_torrent stored.prints
          refl refl in
      let zero : 0 + total_length (dict (fields t)) ≡ total_length (dict (fields t)) =
        omega arith in
      (w', rw (stored.torrent_file, runs, stored.bitfield_file) refl, rw zero at len)

  -- The stages of `main`, each from the results of its calls.
  finish-Answers :
      (state : BState) (files : Files) (w : World) (tracker : Tracker) (calls calls' : Calls)
      (m' : Memory) (hands : Bytes)
      → shake state ≡ ok hands
      → connect_peers sys.net tracker.bpeers 0 calls ≡ ok calls'
      → delete_all tracker.peers w.memory ≡ ok m'
      → finish sys state files w tracker answers.server answers.path calls
        ≡ ok (record {
          state = state;
          files = write_bitfield (bitfield_file_name state.filename) state files;
          world = record w { memory = m' };
          tracker = tracker;
          calls = calls';
        })
  unfolding finish
  finish-Answers state files w tracker calls calls' m' hands shakes connects deletes =
      rw
        (
          shakes,
          connects,
          deletes,
          request-replies state.metainfo state.unique_id (codes "stopped"),
        )
        refl

  announce-Answers :
      (id bits : Bytes) (files : Files) (w w' : World) (tracker : Tracker) (calls : Calls)
      → tracker_response sys.net (encode (dict fs) ++ []) w [] ≡ ok (tracker, w', calls)
      → announce sys (state_of id bits) files w
        ≡ finish sys (state_of id bits) files w' tracker answers.server answers.path calls
  unfolding announce get_sha1
  announce-Answers id bits files w w' tracker calls got =
      rw (answers.has_server, answers.has_path) (rw (start_request-replies loaded id) (rw got refl))

  pub main_program-Starts :
      (files files' : Files) (id bits : Bytes) (w : World)
      → generate_id sys.rands ≡ some id
      → load_state sys (record (state_of id []) { metainfo = new_metainfo }) files new_world
        ≡ ok (state_of id bits, files', w)
      → main_program sys files ≡ announce sys (state_of id bits) files' w
  unfolding main_program initialise btor.Sock.new_sock btor.Main.generated
  main_program-Starts files files' id bits w made loads =
      rw (starts.sockets, starts.handler, made) (rw loads refl)

  -- Where the system lets the program start, gives it twelve random numbers and copies 20 bytes as
  -- the raw hash, on the file of a torrent with its bitfield file, and where the tracker answers
  -- each request with the same dictionary, which gives its peers as a list, the program gets to
  -- `exit(EXIT_SUCCESS)`: it has connected once to each of the first six peers of the list, its
  -- metainfo holds the hash of the info dictionary, and the bitfield file is written as it was
  -- read.
  pub main_program-Answers :
      (files : Files) (bits : Bytes) (numbers : Numbers fs) (xs : Items) (ps : List (Bytes × ℕ))
      → Stored files t bits
      → field_of (codes "peers") fs ≡ some (list xs)
      → AllPeers xs ps
      → (s : Session) × (main_program sys files ≡ ok s)
        × (s.calls ≡ connects (take 6 (peers_from sys.net 0 ps [])) (calls_for ps []))
        × (s.state.metainfo ≡ loaded)
        × (s.state.bitfield ≡ bits)
        × (s.files ≡ write_bitfield (codes "ubuntu2010.torrentbf") s.state files)
  unfolding get_collected_length
  main_program-Answers files bits numbers xs ps stored e all =
      let (id, made, _, _) = generate_id-digits sys.rands starts.rolls in
      let (w, loads, len) = load_state-Stored files bits id stored in
      let printed : Prints (dict fs) [] (total_length (dict (fields t))) w = record {
        readable = answers.readable;
        small = answers.small;
        collected = len;
        room = answers.room;
      } in
      let (tracker, w', got, _, _, _, peers, items) =
        tracker_response-encode sys.net fs [] _ w [] printed numbers xs ps e all in
      let (hands, shakes) = shake-state_of id bits made in
      let (m', deletes) = delete_all-Denotes w'.memory (next w.memory) xs tracker.peers items in
      let connected =
        ap (λ (bs : List BPeer). connect_peers sys.net bs 0 (calls_for ps [])) peers
        ∙ connect_peers-take sys.net (peers_from sys.net 0 ps []) (calls_for ps []) in
      (
        record {
          state = state_of id bits;
          files = write_bitfield (codes "ubuntu2010.torrentbf") (state_of id bits) files;
          world = record w' { memory = m' };
          tracker = tracker;
          calls = connects (take 6 (peers_from sys.net 0 ps [])) (calls_for ps []);
        },
        main_program-Starts files files id bits w made loads
            ∙ announce-Answers id bits files w w' tracker (calls_for ps []) got
            ∙ finish-Answers (state_of id bits) files w' tracker (calls_for ps []) _ m' hands shakes
                connected deletes,
        refl,
        refl,
        refl,
        refl,
      )
