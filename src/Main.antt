-- ===== src/Main.antt =====
-- `main` of btor/btor.cpp, from the start of the program to its `exit(EXIT_SUCCESS)`. What the system
-- and the libraries give is an argument. A run that ends elsewhere gives how it ends; one that gets
-- to the end gives what the program holds there.
pub mod Connects
pub mod Runs
pub mod Again
pub mod Fresh
pub mod Ends
pub mod Succeeds
use btor.Base.{ℕ, suc, Bool, true, false, Option, none, some, List, [], ◌∷◌}
use btor.Base.{Bytes, codes, length, ltb, ◌==◌, if◌then◌else◌}
use btor.Base.Outcome.{Outcome, ok, exited, aborted, out_of_fuel, bind}
use btor.Announce.{Reply, generate_id, get_server_address, get_announce_path}
use btor.Cursor.{World, new_world}
use btor.Files.{Files, read_file, load_bitfield, write_bitfield, bitfield_file_name}
use btor.Memory.{delete_all}
use btor.Metainfo.{BState}
use btor.Peer.{BPeer, Winsock, Calls, try_connect, get_handshake}
use btor.Sock.{SockNet, BSock, SockCalls, new_sock}
use btor.Torrent.{load_torrent, new_metainfo}
use btor.Tracker.{Tracker, request, start_request, tracker_response}

-- `set_handler` is the result of SetConsoleCtrlHandler, `size_bits` the width of a `size_t`; the rest
-- are the arguments that the components take.
pub record System : Type 0 where
  pub set_handler : ℕ
  pub big_endian : Bool
  pub size_bits : ℕ
  pub rands : List ℕ
  pub to_double : ℕ → ℕ
  pub sha1 : Bytes → List ℕ
  pub vector_bytes : List ℕ → Bytes
  pub client : Bytes → Bytes → Reply
  pub net : Winsock
  pub sock : SockNet

-- `CtrlHandler`, over the numbers of the event and of CTRL_C_EVENT: what it returns, and `exitRequested`.
unfoldable pub ctrl_handler : ℕ → ℕ → ℕ → Bool × ℕ
ctrl_handler ctrl_c_event fdw_ctrl_type exit_requested =
    if fdw_ctrl_type == ctrl_c_event then (true, 1) else (false, exit_requested)

generated : Option Bytes → Outcome Bytes
generated none = out_of_fuel
generated (some id) = ok id

-- Up to `generateId`. The state has no metainfo yet: what stands for it is not read.
unfoldable pub initialise : System → Outcome BState
unfolding generated
initialise sys =
    if sys.set_handler == 0
    then exited 1
    else bind (generated (generate_id sys.rands)) λ unique_id. ok (record {
      filename = codes "ubuntu2010.torrent";
      big_endian = sys.big_endian;
      metainfo = new_metainfo;
      unique_id = unique_id;
      bitfield = [];
    })

-- From `readFile` to the bitfield.
unfoldable pub load_state : System → BState → Files → World → Outcome (BState × Files × World)
load_state sys state files w = bind (read_file state.filename files) λ file_buf.
    bind (load_torrent sys.sha1 sys.vector_bytes file_buf w) λ (metainfo, w').
      bind (load_bitfield sys.to_double (record state { metainfo = metainfo }) files)
        λ (state', files'). ok (state', files', w')

-- The loop over the peers from `break_early` on: it ends after the sixth.
unfoldable pub connect_peers : Winsock → List BPeer → ℕ → Calls → Outcome Calls
connect_peers net [] break_early calls = ok calls
connect_peers net (p ∷ bpeers) break_early calls =
    let (r, calls') = try_connect net p calls in
    let rest = connect_peers net bpeers (suc break_early) calls' in
    bind r λ connected. if ltb 5 (suc break_early) then ok calls' else rest

-- `assert(shake.size() == 68)`
unfoldable pub shake : BState → Outcome Bytes
shake state = if length (get_handshake state) == 68 then ok (get_handshake state) else aborted

-- What the program holds when it exits with success.
pub record Session : Type 0 where
  pub state : BState
  pub files : Files
  pub world : World
  pub tracker : Tracker
  pub calls : Calls

-- From the handshake on; `server` and `path` are the parts of the announce URL. The peers that are
-- deleted are the objects of the tracker's list.
unfoldable pub finish :
    System → BState → Files → World → Tracker → Bytes → Bytes → Calls → Outcome Session
finish sys state files w tracker server path calls = bind (shake state) λ handshake.
    bind (connect_peers sys.net tracker.bpeers 0 calls) λ calls'.
      bind (delete_all tracker.peers w.memory) λ memory.
        bind (request sys.client server path state.metainfo state.unique_id (codes "stopped"))
          λ response. ok (record {
            state = state;
            files = write_bitfield (bitfield_file_name state.filename) state files;
            world = record w { memory = memory };
            tracker = tracker;
            calls = calls';
          })

-- The requests, once the state is loaded.
unfoldable pub announce : System → BState → Files → World → Outcome Session
announce sys state files w =
    bind (get_server_address sys.size_bits state.metainfo.announce) λ server.
      bind (get_announce_path sys.size_bits state.metainfo.announce) λ path.
        bind (start_request sys.client server path state.metainfo state.unique_id) λ response.
          bind (tracker_response sys.net response w [])
            λ (tracker, w', calls). finish sys state files w' tracker server path calls

unfoldable pub main_program : System → Files → Outcome Session
main_program sys files = bind (new_sock sys.sock []).0 λ sock. bind (initialise sys) λ state.
    bind (load_state sys state files new_world) λ (state', files', w). announce sys state' files' w
