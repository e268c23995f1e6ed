-- ===== src/Tests/Sessions.antt =====
-- The theorems on a whole run, applied to a tracker with two peers.
use btor.Base.{ℕ, ◌≡◌, ◌≢◌, inr, refl, true, false, some, none, List, [], ◌∷◌, ◌++◌, arith}
use btor.Base.{Bytes, codes, bytes_eq, length, take, if◌then◌else◌}
use btor.Base.Int.{pos}
use btor.Base.Outcome.{ok, undefined}
use btor.Announce.{response, get_server_address, get_announce_path}
use btor.Announce.Url.{url_split}
use btor.Bencode.{dict, encode, total_length}
use btor.Files.{Files, write_bitfield, zeros, create_empty_file}
use btor.Metainfo.{get_bitfield_size}
use btor.Hash.{get_sha1}
use btor.Main.Again.{main_program-main_program}
use btor.Main.Connects.{connects, connect_peers-take}
use btor.Main.Fresh.{Unsaved, main_program-Unsaved}
use btor.Main.Ends.{Origin}
use btor.Main.Succeeds.{main_program-Writes, main_program-Needs}
use btor.Main.Runs.{Starts, Stored, Answers, main_program-Answers}
use btor.Main.{System, Session, connect_peers, main_program}
use btor.Memory.Erased.{destroy-delete_all}
use btor.Memory.{Memory, next, delete_all, destroy}
use btor.Peer.{BPeer, new_peer, get_handshake}
use btor.Tracker.Counts.{socket_calls}
use btor.Sock.{SockNet}
use btor.Tests.Objects.{one_object, one_object-IsSound}
use btor.Tests.Torrents.{sample, sample-IsTorrent, sample-Prints, five_words, some_bytes}
use btor.Parser.{parse_bencoded_string}
use btor.Tests.Components.{rolls}
use btor.Tests.Trackers.{
  two_peers, reply, addresses, refuses, reply-AllPeers, reply-Numbers, reply-peers,
  reply-IsReadable, reply_small,
}
use btor.Torrent.Laws.{metainfo_of, fields}
use btor.Tracker.Laws.{peers_from, calls_for}

abbrev lonely : BPeer
lonely = (new_peer refuses (codes "a") 6881 (pos 0) []).0

connect_peers-take_example :
    connect_peers refuses (lonely ∷ lonely ∷ []) 0 []
    ≡ ok (connects (take 6 (lonely ∷ lonely ∷ [])) [])
connect_peers-take_example = connect_peers-take refuses (lonely ∷ lonely ∷ []) []

-- The memory with one object, after it has been deleted.
abbrev erased : Memory
erased = record one_object { heap = none ∷ [] }

one_deleted : delete_all (0 ∷ []) one_object ≡ ok erased
unfolding delete_all btor.Memory.delete btor.Memory.deref btor.Memory.get_new_bobject
one_deleted = refl

destroy-delete_all_example : destroy erased ≡ undefined
destroy-delete_all_example =
    destroy-delete_all 0 [] one_object erased one_object-IsSound one_deleted

abbrev no_sockets : SockNet
no_sockets = record {
  on_startup = λ calls. 0;
  on_getaddrinfo = λ calls. 0;
  on_socket = λ calls. none;
  on_bind = λ calls. pos 0;
  on_listen = λ calls. pos 0;
}

abbrev machine : System
machine = record {
  set_handler = 1;
  big_endian = false;
  size_bits = 64;
  rands = rolls;
  to_double = λ n. n;
  sha1 = five_words;
  vector_bytes = some_bytes;
  client = λ server path. response 200 (encode (dict reply) ++ []);
  net = refuses;
  sock = no_sockets;
}

machine-Starts : Starts machine
machine-Starts = record { handler = refl; sockets = refl; rolls = omega arith; raw = λ ws. refl }

sample_url :
    (get_server_address 64 sample.announce ≡ ok (codes "http://t"))
    × (get_announce_path 64 sample.announce ≡ ok (codes "a"))
sample_url = url_split 64 (codes "http://t") (codes "a") (inr refl) (refl, tt) (omega arith)

machine-Answers : Answers machine sample reply
unfolding total_length btor.Parser.Info.join bytes_eq
machine-Answers = record {
  server = codes "http://t";
  path = codes "a";
  has_server = sample_url.0;
  has_path = sample_url.1;
  replies = λ asked. refl;
  readable = reply-IsReadable;
  small = reply_small;
  room = omega arith;
}

-- The torrent file, and a bitfield file of one byte.
abbrev disk : Files
disk = record {
  contents = λ name.
      if bytes_eq name (codes "ubuntu2010.torrent")
      then some (encode (dict (fields sample)) ++ [])
      else if bytes_eq name (codes "ubuntu2010.torrentbf")
      then some (0x80 ∷ [])
      else none;
  writable = λ name. true;
}

disk-Stored : Stored disk sample (0x80 ∷ [])
unfolding bytes_eq
disk-Stored = record {
  is_torrent = sample-IsTorrent;
  prints = sample-Prints;
  torrent_file = refl;
  bitfield_file = refl;
}

main_program-Answers_example :
    (s : Session) × (main_program machine disk ≡ ok s)
    × (s.calls ≡ connects (take 6 (peers_from refuses 0 addresses [])) (calls_for addresses []))
    × (s.state.metainfo ≡ get_sha1 five_words some_bytes (metainfo_of sample 0))
    × (s.state.bitfield ≡ 0x80 ∷ [])
    × (s.files ≡ write_bitfield (codes "ubuntu2010.torrentbf") s.state disk)
main_program-Answers_example =
    main_program-Answers machine sample reply machine-Starts machine-Answers disk (0x80 ∷ [])
      reply-Numbers two_peers addresses disk-Stored reply-peers reply-AllPeers

abbrev finished_session : Session
finished_session =
    (main_program-Answers machine sample reply machine-Starts machine-Answers disk (0x80 ∷ [])
      reply-Numbers two_peers addresses disk-Stored reply-peers reply-AllPeers).0

finished_run : main_program machine disk ≡ ok finished_session
finished_run =
    (main_program-Answers machine sample reply machine-Starts machine-Answers disk (0x80 ∷ [])
      reply-Numbers two_peers addresses disk-Stored reply-peers reply-AllPeers).1

main_program-Writes_example :
    (length (get_handshake finished_session.state) ≡ 68)
    × (finished_session.files.contents (codes "ubuntu2010.torrentbf") ≡ (
        if bytes_eq (codes "ubuntu2010.torrentbf") (codes "ubuntu2010.torrentbf")
        then some finished_session.state.bitfield
        else disk.contents (codes "ubuntu2010.torrentbf")))
    × Origin (λ n. n) (codes "ubuntu2010.torrentbf") disk finished_session.state
main_program-Writes_example =
    main_program-Writes machine disk finished_session (codes "ubuntu2010.torrentbf") finished_run

main_program-Needs_example :
    (machine.sock.on_startup [] ≡ 0)
    × (machine.set_handler ≢ 0)
    × ((text : Bytes) × (disk.contents (codes "ubuntu2010.torrent") ≡ some text))
    × (length finished_session.tracker.bpeers ≡ length finished_session.tracker.peers)
    × (finished_session.calls
        ≡ connects
            (take 6 finished_session.tracker.bpeers)
            (socket_calls (length finished_session.tracker.peers) []))
main_program-Needs_example = main_program-Needs machine disk finished_session finished_run

-- Another process: other random numbers, and other bytes in the vector object. Its tracker gives
-- the same dictionary.
abbrev other_bytes : List ℕ → Bytes
other_bytes ws = codes "jihgfedcba9876543210"

abbrev next_machine : System
next_machine = record machine { rands = 7 ∷ rolls; vector_bytes = other_bytes }

next_machine-Starts : Starts next_machine
next_machine-Starts = record {
  handler = refl;
  sockets = refl;
  rolls = omega arith;
  raw = λ ws. refl;
}

next_machine-Answers : Answers next_machine sample reply
next_machine-Answers = record {
  server = machine-Answers.server;
  path = machine-Answers.path;
  has_server = machine-Answers.has_server;
  has_path = machine-Answers.has_path;
  replies = machine-Answers.replies;
  readable = machine-Answers.readable;
  small = machine-Answers.small;
  room = machine-Answers.room;
}

main_program-main_program_example :
    (s s' : Session) × (main_program machine disk ≡ ok s)
    × (main_program next_machine s.files ≡ ok s')
    × (record s'.state.metainfo { info_hash_raw = s.state.metainfo.info_hash_raw }
        ≡ s.state.metainfo)
    × (s'.state.metainfo.info_hash_raw ≡ other_bytes (five_words s.state.metainfo.infodict))
    × (s.state.bitfield ≡ 0x80 ∷ [])
    × (s'.state.bitfield ≡ 0x80 ∷ [])
    × (s'.calls ≡ connects (take 6 (peers_from refuses 0 addresses [])) (calls_for addresses []))
main_program-main_program_example =
    main_program-main_program machine next_machine sample reply reply machine-Starts
      next_machine-Starts machine-Answers next_machine-Answers disk (0x80 ∷ []) reply-Numbers
      reply-Numbers two_peers two_peers addresses addresses refl disk-Stored reply-peers
      reply-AllPeers reply-peers reply-AllPeers

-- The torrent file alone.
abbrev new_disk : Files
new_disk = record {
  contents = λ name.
      if bytes_eq name (codes "ubuntu2010.torrent")
      then some (encode (dict (fields sample)) ++ [])
      else none;
  writable = λ name. true;
}

new_disk-Unsaved : Unsaved new_disk sample
unfolding bytes_eq
new_disk-Unsaved = record {
  is_torrent = sample-IsTorrent;
  prints = sample-Prints;
  torrent_file = refl;
  no_bitfield = refl;
  can_write = refl;
}

-- Ten pieces have one byte.
sample_size :
    get_bitfield_size machine.to_double (get_sha1 five_words some_bytes (metainfo_of sample 0))
    ≡ ok 1
unfolding get_bitfield_size get_sha1 btor.Metainfo.ceil total_length btor.Parser.Info.join bytes_eq
sample_size = refl

main_program-Unsaved_example :
    (main_program machine new_disk
      ≡ main_program machine (create_empty_file (codes "ubuntu2010.torrentbf") 1 new_disk))
    × (s s' : Session) × (main_program machine new_disk ≡ ok s)
    × (main_program next_machine s.files ≡ ok s')
    × (record s'.state.metainfo { info_hash_raw = s.state.metainfo.info_hash_raw }
        ≡ s.state.metainfo)
    × (s.state.bitfield ≡ zeros 1)
    × (s'.state.bitfield ≡ zeros 1)
    × (s'.calls ≡ connects (take 6 (peers_from refuses 0 addresses [])) (calls_for addresses []))
main_program-Unsaved_example =
    main_program-Unsaved machine sample new_disk 1 new_disk-Unsaved sample_size reply machine-Starts
      machine-Answers next_machine reply next_machine-Starts next_machine-Answers reply-Numbers
      reply-Numbers two_peers two_peers addresses addresses refl reply-peers reply-AllPeers
      reply-peers reply-AllPeers
