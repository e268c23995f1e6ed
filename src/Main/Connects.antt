-- ===== src/Main/Connects.antt =====
-- The loop of `main` that connects to the first peers.
use btor.Base.{ℕ, zero, suc, ◌+◌, ◌≡◌, refl, List, [], ◌∷◌, arith}
use btor.Base.{take, lt→ltb, le→ltb_false}
use btor.Base.Outcome.{ok}
use btor.Main.{connect_peers}
use btor.Peer.{BPeer, Winsock, Calls, connect_call, try_connect}

-- One call of `connect` per peer, the last one first.
abbrev pub connects : List BPeer → Calls → Calls
connects [] calls = calls
connects (p ∷ ps) calls = connects ps (connect_call p.peer_socket ∷ calls)

connect_peers-from :
    (net : Winsock) (ps : List BPeer) (j k : ℕ) (calls : Calls)
    → suc j + k ≡ 6
    → connect_peers net ps k calls ≡ ok (connects (take (suc j) ps) calls)
unfolding connect_peers try_connect
connect_peers-from net [] j k calls e = refl
connect_peers-from net (p ∷ ps) zero k calls e = rw (lt→ltb 5 (suc k) (omega arith)) refl
connect_peers-from net (p ∷ ps) (suc j) k calls e =
    rw (le→ltb_false 5 (suc k) (omega arith))
      (connect_peers-from net ps j (suc k) (connect_call p.peer_socket ∷ calls) (omega arith))

-- Whatever `connect` answers, the program calls it once for each of the first six peers, in their
-- order, and for no other.
pub connect_peers-take :
    (net : Winsock) (bpeers : List BPeer) (calls : Calls)
    → connect_peers net bpeers 0 calls ≡ ok (connects (take 6 bpeers) calls)
connect_peers-take net bpeers calls = connect_peers-from net bpeers 5 0 calls refl
