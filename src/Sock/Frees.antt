-- ===== src/Sock/Frees.antt =====
-- What `OpenSocket` has released when it ends.
use btor.Base.{ℕ, suc, ◌+◌, ◌≡◌, ◌⊎◌, inl, inr, refl, none, some, List, [], ◌∷◌, ◌++◌, arith}
use btor.Base.{◌==◌, Bool-cases}
use btor.Base.Int.{ℤ, pos, negsuc}
use btor.Base.Outcome.{Outcome, ok, exited}
use btor.Peer.{Socket, is_socket_error}
use btor.Sock.{
  SockCalls, SockNet, BSock, wsa_shutdown, getaddrinfo, freeaddrinfo, new_socket, bind_socket,
  close_socket, listen_on, bind_on, socket_on, open_socket,
}

-- How many calls of a kind there are.
unfoldable pub frees : SockCalls → ℕ
frees [] = 0
frees (freeaddrinfo ∷ calls) = suc (frees calls)
frees (_ ∷ calls) = frees calls

unfoldable pub shutdowns : SockCalls → ℕ
shutdowns [] = 0
shutdowns (wsa_shutdown ∷ calls) = suc (shutdowns calls)
shutdowns (_ ∷ calls) = shutdowns calls

-- The sockets that are closed, the last one first.
unfoldable pub closed_sockets : SockCalls → List Socket
closed_sockets [] = []
closed_sockets (close_socket s ∷ calls) = s ∷ closed_sockets calls
closed_sockets (_ ∷ calls) = closed_sockets calls

-- From `calls` to `after`: how many address lists were freed, which sockets were closed, and how many
-- shutdowns were made.
abbrev pub Released : ℕ → List Socket → ℕ → SockCalls → SockCalls → Type 0
Released freed closed down calls after =
    (frees after ≡ freed + frees calls)
    × (closed_sockets after ≡ closed ++ closed_sockets calls)
    × (shutdowns after ≡ down + shutdowns calls)

-- What `socket` returned, unless it is INVALID_SOCKET.
abbrev pub created_sockets : Socket → List Socket
created_sockets none = []
created_sockets (some n) = some n ∷ []

-- The result is no success.
abbrev pub Fails : Outcome ℤ → Type 0
Fails r = (r ≡ ok (negsuc 0)) ⊎ (r ≡ exited 1)

socket_on-Released :
    (net : SockNet) (s : Socket) (calls : SockCalls)
    → (((socket_on net s calls).0 ≡ ok (pos 0))
        × ((n : ℕ) × (s ≡ some n))
        × Released 1 [] 0 calls (socket_on net s calls).1)
      ⊎ (Fails (socket_on net s calls).0
          × Released 1 (created_sockets s) 1 calls (socket_on net s calls).1)
unfolding socket_on bind_on listen_on frees closed_sockets shutdowns
socket_on-Released net none calls = inr (inl refl, (omega arith, refl, omega arith))
socket_on-Released net (some n) calls = elim (Bool-cases (is_socket_error (net.on_bind calls))) [
  | inl fails ↦ rw fails (inr (inl refl, (omega arith, refl, omega arith)))
  | inr bound ↦
      elim (Bool-cases
        (is_socket_error (net.on_listen (freeaddrinfo ∷ bind_socket (some n) ∷ calls)))) [
          | inl fails ↦ rw (bound, fails) (inr (inr refl, (omega arith, refl, omega arith)))
          | inr listens ↦
              rw (bound, listens) (inl (refl, (n, refl), (omega arith, refl, omega arith)))
        ]
]

-- Whatever the socket library answers, `OpenSocket` ends in one of three ways. It returns 0, holds
-- the socket that the library created, and has freed the address list once, closed no socket and
-- not shut the library down; or it returns -1 or exits, and has freed the list once, closed the
-- socket that the library created, once, and no other, or none if none was created, and shut the
-- library down once; or it returns -1 since there was no list to free, with the object as it was,
-- after one shutdown and no closing.
pub open_socket-Released :
    (net : SockNet) (b : BSock) (calls : SockCalls)
    → let s = net.on_socket (getaddrinfo ∷ calls) in
      let (r, b', after) = open_socket net b calls in
      ((r ≡ ok (pos 0))
        × ((n : ℕ) × (s ≡ some n))
        × (b'.own_socket ≡ s)
        × Released 1 [] 0 calls after)
      ⊎ (Fails r × (b'.own_socket ≡ s) × Released 1 (created_sockets s) 1 calls after)
      ⊎ ((r ≡ ok (negsuc 0)) × (b' ≡ b) × Released 0 [] 1 calls after)
unfolding open_socket frees closed_sockets shutdowns
open_socket-Released net b calls = elim (Bool-cases (net.on_getaddrinfo calls == 0)) [
  | inl found ↦
      rw found
        (elim (socket_on-Released net (net.on_socket (getaddrinfo ∷ calls))
          (new_socket ∷ getaddrinfo ∷ calls)) [
            | inl (returns, valid, released) ↦ inl (returns, valid, refl, released)
            | inr (fails, released) ↦ inr (inl (fails, refl, released))
          ])
  | inr missing ↦ rw missing (inr (inr (refl, refl, (omega arith, refl, omega arith))))
]
