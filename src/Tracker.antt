-- ===== src/Tracker.antt =====
-- What `main` of btor/btor.cpp asks the tracker, and what it makes of the answer.
pub mod Laws
pub mod Sound
pub mod Counts
use btor.Base.{ℕ, suc, ◌+◌, Bool, true, false, List, [], ◌∷◌, ◌++◌}
use btor.Base.{Bytes, codes, if◌then◌else◌}
use btor.Base.Int.{ℤ, pos}
use btor.Base.Outcome.{Outcome, ok, exited, bind}
use btor.Announce.{Reply, build_announce_parameters, make_get_request}
use btor.Cursor.{World}
use btor.Memory.Lookup.{read, kind_of}
use btor.Memory.{Memory}
use btor.Metainfo.{Metainfo, to_uint64}
use btor.Object.Dict.{Ptr}
use btor.Object.{b_string, is_kind, get_by_key, check_if_has_key, get_string, get_list}
use btor.Parser.{parse_bencoded_string}
use btor.Peer.{BPeer, Winsock, Calls, new_peer}
use btor.Torrent.{int_under, string_under}

-- `makeGetRequest(serverAddr, "/" + announcePath + builtAddress)` for an event.
unfoldable pub request :
    (Bytes → Bytes → Reply) → Bytes → Bytes → Metainfo → Bytes → Bytes → Outcome Bytes
request client server path metainfo peer_id b_event = make_get_request client server (
    b'/'
    ∷ (path
        ++ build_announce_parameters metainfo.info_hash_hex metainfo.total_length peer_id b_event))

-- The exit on an empty response to the first request.
unfoldable pub start_request :
    (Bytes → Bytes → Reply) → Bytes → Bytes → Metainfo → Bytes → Outcome Bytes
start_request client server path metainfo peer_id =
    bind (request client server path metainfo peer_id (codes "started"))
      λ response. elim response [ [] ↦ exited 1 | c ∷ cs ↦ ok (c ∷ cs) ]

-- What the program takes from a response: `peers` are the objects, `bpeers` the peers.
pub record Tracker : Type 0 where
  pub complete : ℤ
  pub incomplete : ℤ
  pub interval : ℤ
  pub peers : List Ptr
  pub bpeers : List BPeer

-- The loop over the peers: the port goes from `int64_t` over `int` to `unsigned short`, which leaves
-- its last 16 bits; `id++` numbers the peers.
unfoldable pub read_peers : Winsock → List Ptr → ℕ → Memory → Calls → Outcome (List BPeer × Calls)
read_peers net [] id m calls = ok ([], calls)
read_peers net (p ∷ ps) id m calls = bind (string_under (codes "ip") p m) λ peer_ip.
    bind (int_under (codes "port") p m) λ port.
      let (peer, calls') = new_peer net peer_ip (to_uint64 port) (pos id) calls in
      bind (read_peers net ps (suc id) m calls') λ (bpeers, calls''). ok (peer ∷ bpeers, calls'')

-- The binary form of the peers is not supported: the program reads the text and exits.
unfoldable pub peers_of : Winsock → Ptr → Memory → Calls → Outcome (List Ptr × List BPeer × Calls)
peers_of net root m calls = bind (read root (get_by_key (codes "peers")) m) λ p.
    bind (read p kind_of m) λ dict_type.
      if is_kind dict_type b_string
      then bind (read p get_string m) (λ s. exited 1)
      else bind (read p get_list m) λ peers.
        bind (read_peers net peers 0 m calls) λ (bpeers, calls'). ok (peers, bpeers, calls')

-- The numbers and the peers of a response that is no failure.
unfoldable pub accepted : Winsock → Ptr → Memory → Calls → Outcome (Tracker × Calls)
accepted net root m calls = bind (int_under (codes "complete") root m) λ complete.
    bind (int_under (codes "incomplete") root m) λ incomplete.
      bind (int_under (codes "interval") root m) λ interval.
        bind (peers_of net root m calls) λ (peers, bpeers, calls'). ok (
          record {
            complete = complete;
            incomplete = incomplete;
            interval = interval;
            peers = peers;
            bpeers = bpeers;
          },
          calls',
        )

-- The response is parsed by the same parser into the same memory.
unfoldable pub tracker_response :
    Winsock → Bytes → World → Calls → Outcome (Tracker × World × Calls)
tracker_response net response w calls = bind (parse_bencoded_string response w) λ (root, w').
    bind (read root (check_if_has_key (codes "failure reason")) w'.memory) λ failed.
      if failed
      then bind (string_under (codes "failure reason") root w'.memory) (λ reason. exited 1)
      else bind (accepted net root w'.memory calls) λ (tracker, calls'). ok (tracker, w', calls')
