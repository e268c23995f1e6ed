-- ===== src/Peer.antt =====
-- `BPeer` of btor/bpeer.h and btor/bpeer.cpp over the calls of the socket library, whose answers are
-- an argument: what a call returns is a function of the calls made before it. Every command gives
-- what it ends in and the calls up to then, the last one first.
pub mod Handshake
pub mod Calls
pub mod Flags
use btor.Base.{ℕ, ◌%◌, ◌^◌, Bool, true, false, Option, none, some, List, [], ◌∷◌, ◌++◌}
use btor.Base.{Bytes, codes, take, ltb, ◌==◌, if◌then◌else◌}
use btor.Base.Int.{ℤ, pos, negsuc}
use btor.Base.Outcome.{Outcome, ok, exited, undefined}
use btor.Metainfo.{BState}

-- A SOCKET; `none` is INVALID_SOCKET.
abbrev pub Socket : Type 0
Socket = Option ℕ

pub data Call : Type 0 where
  socket_call : Call
  connect_call select_call recv_call shutdown_call closesocket_call : Socket → Call
  send_call : Socket → Bytes → Call
  wsa_cleanup : Call

abbrev pub Calls : Type 0
Calls = List Call

-- What the library answers. `is_set` is the answer of `select` for the peer's socket; `recv` gives
-- its result and what it wrote to the buffer.
pub record Winsock : Type 0 where
  pub socket : Calls → Socket
  pub connect : Calls → ℤ
  pub send : Calls → ℤ
  pub is_set : Calls → Bool
  pub recv : Calls → ℤ × Bytes
  pub shutdown : Calls → ℤ

pub record BPeer : Type 0 where
  pub peer_num_id : ℤ
  pub am_choking : Bool
  pub am_interested : Bool
  pub peer_choking : Bool
  pub peer_interested : Bool
  pub peer_socket : Socket
  pub readable_ip : Bytes
  pub port : ℕ

abbrev exit_failure : ℕ
exit_failure = 1

-- `SOCKET_ERROR` is -1.
abbrev pub is_socket_error : ℤ → Bool
is_socket_error (pos n) = false
is_socket_error (negsuc n) = n == 0

abbrev pub is_negative : ℤ → Bool
is_negative (pos n) = false
is_negative (negsuc n) = true

-- `BPeer(ipaddr, port, peer_num_id)`; the port is an `unsigned short`. A peer whose socket could not
-- be created is built all the same.
unfoldable pub new_peer : Winsock → Bytes → ℕ → ℤ → Calls → BPeer × Calls
new_peer net ipaddr port peer_num_id calls = (
  record {
    peer_num_id = peer_num_id;
    am_choking = true;
    am_interested = false;
    peer_choking = true;
    peer_interested = false;
    peer_socket = net.socket calls;
    readable_ip = ipaddr;
    port = port % 2 ^ 16;
  },
  socket_call ∷ calls,
)

-- `~BPeer()`
unfoldable pub destroy_peer : BPeer → Calls → Calls
destroy_peer p calls = closesocket_call p.peer_socket ∷ calls

unfoldable pub try_connect : Winsock → BPeer → Calls → Outcome ℤ × Calls
try_connect net p calls = (
  ok (if is_negative (net.connect calls) then negsuc 0 else pos 0),
  connect_call p.peer_socket ∷ calls,
)

-- `strlen(msg)`: up to the first zero.
unfoldable pub c_string : Bytes → Bytes
c_string [] = []
c_string (c ∷ cs) = if c == 0 then [] else c ∷ c_string cs

unfoldable pub send_message : Winsock → BPeer → Bytes → Calls → Outcome ℤ × Calls
send_message net p msg calls =
    let sent = send_call p.peer_socket (c_string msg) ∷ calls in
    if is_socket_error (net.send calls)
    then (ok (negsuc 0), closesocket_call p.peer_socket ∷ sent)
    else (ok (pos 0), sent)

-- `closesocket(peerSocket); WSACleanup(); exit(EXIT_FAILURE);`
abbrev pub give_up : BPeer → Calls → Outcome ℤ × Calls
give_up p calls = (exited exit_failure, wsa_cleanup ∷ closesocket_call p.peer_socket ∷ calls)

-- The branches on the result of `recv`: a positive number of bytes is sent back.
unfoldable pub on_received : Winsock → BPeer → ℤ × Bytes → Calls → Outcome ℤ × Calls
on_received net p (negsuc n, recvbuf) calls = give_up p calls
on_received net p (pos n, recvbuf) calls =
    let sent = send_call p.peer_socket (take n recvbuf) ∷ calls in
    if n == 0
    then (undefined, calls)
    else if is_socket_error (net.send calls)
    then give_up p sent
    else (undefined, sent)

-- Each way through `tryReceive` that does not exit reaches its end without a `return`, which is
-- undefined for a function with a result.
unfoldable pub try_receive : Winsock → BPeer → Calls → Outcome ℤ × Calls
try_receive net p calls =
    let selected = select_call p.peer_socket ∷ calls in
    if net.is_set calls
    then on_received net p (net.recv selected) (recv_call p.peer_socket ∷ selected)
    else (undefined, selected)

-- So does `closeConnection`.
unfoldable pub close_connection : Winsock → BPeer → Calls → Outcome ℤ × Calls
close_connection net p calls =
    let down = shutdown_call p.peer_socket ∷ calls in
    if is_socket_error (net.shutdown calls)
    then give_up p down
    else (undefined, closesocket_call p.peer_socket ∷ down)

unfoldable pub get_handshake : BState → Bytes
get_handshake state =
    codes "5BitTorrent protocol00000000" ++ (state.metainfo.info_hash_raw ++ state.unique_id)
