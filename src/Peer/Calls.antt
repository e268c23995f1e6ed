-- ===== src/Peer/Calls.antt =====
-- The calls that a peer makes: how `tryReceive` ends, and how often a socket is closed.
use btor.Base.{ℕ, suc, ◌+◌, ◌≡◌, ◌⊎◌, inl, inr, refl, [], ◌∷◌, arith}
use btor.Base.{Bytes, ◌==◌, Bool-cases}
use btor.Base.Int.{ℤ, pos, negsuc}
use btor.Base.Outcome.{Outcome, ok, exited, undefined}
use btor.Peer.{
  Calls, closesocket_call, socket_call, wsa_cleanup, Winsock, BPeer, is_socket_error, new_peer,
  destroy_peer, send_message, on_received, try_receive, close_connection,
}

-- How many calls close a socket.
unfoldable pub closes : Calls → ℕ
closes [] = 0
closes (closesocket_call s ∷ calls) = suc (closes calls)
closes (_ ∷ calls) = closes calls

-- The socket library is shut down and the program exits.
abbrev pub GivesUp : BPeer → Calls → Outcome ℤ × Calls → Type 0
GivesUp p calls r =
    (r.0 ≡ exited 1)
    × ((c : Calls) × (r.1 ≡ wsa_cleanup ∷ closesocket_call p.peer_socket ∷ c))
    × (closes r.1 ≡ suc (closes calls))

-- The command reaches its end without a `return`, and has closed `n` sockets.
abbrev pub FallsOff : ℕ → Calls → Outcome ℤ × Calls → Type 0
FallsOff n calls r = (r.0 ≡ undefined) × (closes r.1 ≡ n + closes calls)

on_received-ends :
    (net : Winsock) (p : BPeer) (r : ℤ × Bytes) (calls : Calls)
    → FallsOff 0 calls (on_received net p r calls) ⊎ GivesUp p calls (on_received net p r calls)
unfolding on_received closes
on_received-ends net p (negsuc n, recvbuf) calls = inr (refl, (calls, refl), refl)
on_received-ends net p (pos n, recvbuf) calls = elim (Bool-cases (n == 0)) [
  | inl nothing ↦ rw nothing (inl (refl, omega arith))
  | inr some ↦ elim (Bool-cases (is_socket_error (net.send calls))) [
    | inl fails ↦ rw (some, fails) (inr (refl, (_, refl), refl))
    | inr sent ↦ rw (some, sent) (inl (refl, omega arith))
  ]
]

-- `tryReceive` and `closeConnection` never return a value, whatever the socket library answers:
-- either they reach their end without a `return`, which is undefined, after no closing of a socket
-- by the first and one by the second, or the program exits, and the last two of its calls close the
-- peer's socket, the only closing, and shut the library down.
pub try_receive-close_connection :
    (net : Winsock) (p : BPeer) (calls : Calls)
    → (FallsOff 0 calls (try_receive net p calls) ⊎ GivesUp p calls (try_receive net p calls))
      × (FallsOff 1 calls (close_connection net p calls)
          ⊎ GivesUp p calls (close_connection net p calls))
unfolding try_receive close_connection closes
try_receive-close_connection net p calls = (
  elim (Bool-cases (net.is_set calls)) [
    | inl ready ↦ rw ready (on_received-ends net p _ _)
    | inr idle ↦ rw idle (inl (refl, omega arith))
  ],
  elim (Bool-cases (is_socket_error (net.shutdown calls))) [
    | inl fails ↦ rw fails (inr (refl, (_, refl), refl))
    | inr down ↦ rw down (inl (refl, omega arith))
  ],
)

-- A peer that is built, sends one message and is destroyed makes one call that closes a socket where
-- `sendMessage` returns 0, and two where it returns -1.
pub destroy_peer-send_message :
    (net : Winsock) (ipaddr : Bytes) (port : ℕ) (peer_num_id : ℤ) (msg : Bytes) (calls : Calls)
    → let (p, built) = new_peer net ipaddr port peer_num_id calls in
      let (r, sent) = send_message net p msg built in
      ((r ≡ ok (pos 0)) × (closes (destroy_peer p sent) ≡ 1 + closes calls))
      ⊎ ((r ≡ ok (negsuc 0)) × (closes (destroy_peer p sent) ≡ 2 + closes calls))
unfolding new_peer send_message destroy_peer closes
destroy_peer-send_message net ipaddr port peer_num_id msg calls =
    elim (Bool-cases (is_socket_error (net.send (socket_call ∷ calls)))) [
      | inl fails ↦ rw fails (inr (refl, omega arith))
      | inr sent ↦ rw sent (inl (refl, omega arith))
    ]
