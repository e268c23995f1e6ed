-- ===== src/Sock.antt =====
-- `BSock` of btor/bsock.cpp over the calls of the socket library, whose answers are an argument: what
-- a call returns is a function of the calls made before it, the last one first.
pub mod Frees
use btor.Base.{ℕ, Bool, not, Option, none, some, List, [], ◌∷◌}
use btor.Base.{◌==◌, if◌then◌else◌}
use btor.Base.Int.{ℤ, pos, negsuc}
use btor.Base.Outcome.{Outcome, ok, exited}
use btor.Peer.{Socket, is_socket_error}

pub data SockCall : Type 0 where
  wsa_startup wsa_shutdown getaddrinfo freeaddrinfo new_socket : SockCall
  bind_socket listen_socket close_socket connect_to : Socket → SockCall

abbrev pub SockCalls : Type 0
SockCalls = List SockCall

pub record SockNet : Type 0 where
  pub on_startup : SockCalls → ℕ
  pub on_getaddrinfo : SockCalls → ℕ
  pub on_socket : SockCalls → Socket
  pub on_bind : SockCalls → ℤ
  pub on_listen : SockCalls → ℤ

pub record BSock : Type 0 where
  pub own_socket : Socket

-- `BSock()`
unfoldable pub new_sock : SockNet → SockCalls → Outcome BSock × SockCalls
new_sock net calls =
    if net.on_startup calls == 0
    then (ok (record { own_socket = none }), wsa_startup ∷ calls)
    else (exited 1, wsa_startup ∷ calls)

-- `~BSock()`
unfoldable pub destroy_sock : BSock → SockCalls → SockCalls
destroy_sock b calls = wsa_shutdown ∷ calls

-- From `listen` on, after `freeaddrinfo`.
listen_on : SockNet → Socket → SockCalls → Outcome ℤ × SockCalls
listen_on net s calls =
    if is_socket_error (net.on_listen calls)
    then (exited 1, wsa_shutdown ∷ close_socket s ∷ listen_socket s ∷ calls)
    else (ok (pos 0), listen_socket s ∷ calls)

-- From `bind` on.
bind_on : SockNet → Socket → SockCalls → Outcome ℤ × SockCalls
bind_on net s calls =
    if is_socket_error (net.on_bind calls)
    then (ok (negsuc 0), wsa_shutdown ∷ close_socket s ∷ freeaddrinfo ∷ bind_socket s ∷ calls)
    else listen_on net s (freeaddrinfo ∷ bind_socket s ∷ calls)

-- From the test on INVALID_SOCKET on.
socket_on : SockNet → Socket → SockCalls → Outcome ℤ × SockCalls
socket_on net none calls = (ok (negsuc 0), wsa_shutdown ∷ freeaddrinfo ∷ calls)
socket_on net (some n) calls = bind_on net (some n) calls

-- `OpenSocket`: its result, the object and the calls. After `getaddrinfo` has failed the object is
-- as it was; otherwise it holds what `socket` returned.
unfoldable pub open_socket : SockNet → BSock → SockCalls → Outcome ℤ × BSock × SockCalls
unfolding socket_on bind_on listen_on
open_socket net b calls =
    let resolved = getaddrinfo ∷ calls in
    let s = net.on_socket resolved in
    let (r, after) = socket_on net s (new_socket ∷ resolved) in
    if not (net.on_getaddrinfo calls == 0)
    then (ok (negsuc 0), b, wsa_shutdown ∷ resolved)
    else (r, record b { own_socket = s }, after)

-- `MakeConnection` sees the peer's address only. The third argument of `connect` is the comparison of
-- a size with SOCKET_ERROR, which is zero; both ways to the end leave the object as it was.
unfoldable pub make_connection : BSock → SockCalls → SockCalls
make_connection b calls = elim b.own_socket [ none ↦ calls | some n ↦ connect_to (some n) ∷ calls ]
