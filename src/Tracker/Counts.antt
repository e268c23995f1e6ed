-- ===== src/Tracker/Counts.antt =====
-- How many peers and sockets a response to the first request leads to, whatever it is.
use btor.Base.{ℕ, zero, suc, ◌≡◌, inl, inr, refl, ap, List, [], ◌∷◌}
use btor.Base.{Bytes, codes, length, Bool-cases}
use btor.Base.Outcome.{Returns, Returns-bind, Returns-eq}
use btor.Cursor.{World}
use btor.Memory.Lookup.{read, kind_of}
use btor.Memory.{Memory}
use btor.Object.Dict.{Ptr}
use btor.Object.{b_string, is_kind, get_by_key, check_if_has_key, get_string, get_list}
use btor.Parser.{parse_bencoded_string}
use btor.Peer.{BPeer, Winsock, Calls, socket_call, new_peer}
use btor.Torrent.{int_under, string_under}
use btor.Tracker.{Tracker, read_peers, peers_of, accepted, tracker_response}

-- The calls that make a socket each, after others.
unfoldable pub socket_calls : ℕ → Calls → Calls
socket_calls zero calls = calls
socket_calls (suc n) calls = socket_calls n (socket_call ∷ calls)

-- One peer for each object, and one socket for each peer.
abbrev pub Counted : List Ptr → List BPeer → Calls → Calls → Type 0
Counted peers bpeers calls calls' =
    (length bpeers ≡ length peers) × (calls' ≡ socket_calls (length peers) calls)

read_peers-Counted :
    (net : Winsock) (ps : List Ptr) (id : ℕ) (m : Memory) (calls : Calls)
    → Returns (λ (r : List BPeer × Calls). Counted ps r.0 calls r.1) (read_peers net ps id m calls)
unfolding read_peers socket_calls new_peer
read_peers-Counted net [] id m calls = (refl, refl)
read_peers-Counted net (p ∷ ps) id m calls =
    let P = λ (r : List BPeer × Calls). Counted (p ∷ ps) r.0 calls r.1 in
    let Q = λ (r : List BPeer × Calls). Counted ps r.0 (socket_call ∷ calls) r.1 in
    Returns-bind P (string_under (codes "ip") p m) _ (λ ip _.
      Returns-bind P (int_under (codes "port") p m) _ (λ port _.
        Returns-bind P (read_peers net ps (suc id) m (socket_call ∷ calls)) _ (λ r given.
          let (size, called) =
            Returns-eq Q r (read_peers net ps (suc id) m (socket_call ∷ calls))
              (read_peers-Counted net ps (suc id) m (socket_call ∷ calls)) given in
          (ap suc size, called))))

module _ (net : Winsock) (root : Ptr) (m : Memory) (calls : Calls) where
  peers_of-Counted :
      Returns
        (λ (r : List Ptr × List BPeer × Calls). Counted r.0 r.1 calls r.2)
        (peers_of net root m calls)
  unfolding peers_of
  peers_of-Counted =
      let P = λ (r : List Ptr × List BPeer × Calls). Counted r.0 r.1 calls r.2 in
      Returns-bind P (read root (get_by_key (codes "peers")) m) _ (λ p found.
        Returns-bind P (read p kind_of m) _ (λ kind is_it.
          elim (Bool-cases (is_kind kind b_string)) [
            | inl text ↦ rw text (Returns-bind P (read p get_string m) _ (λ s got. tt))
            | inr no_text ↦ rw no_text (
                Returns-bind P (read p get_list m) _ (λ ps got.
                  Returns-bind P (read_peers net ps 0 m calls) _ (λ r given.
                    Returns-eq (λ (r : List BPeer × Calls). Counted ps r.0 calls r.1) r
                      (read_peers net ps 0 m calls) (read_peers-Counted net ps 0 m calls) given)))
          ]))

  accepted-Counted :
      Returns
        (λ (r : Tracker × Calls). Counted (r.0.peers) (r.0.bpeers) calls r.1)
        (accepted net root m calls)
  unfolding accepted
  accepted-Counted =
      let P = λ (r : Tracker × Calls). Counted (r.0.peers) (r.0.bpeers) calls r.1 in
      Returns-bind P (int_under (codes "complete") root m) _ (λ c _.
        Returns-bind P (int_under (codes "incomplete") root m) _ (λ i _.
          Returns-bind P (int_under (codes "interval") root m) _ (λ n _.
            Returns-bind P (peers_of net root m calls) _ (λ r given.
              Returns-eq (λ (r : List Ptr × List BPeer × Calls). Counted r.0 r.1 calls r.2) r
                (peers_of net root m calls) peers_of-Counted given))))

-- What the program takes for its peers, where it takes a response at all: one peer and one socket
-- for each element of the list.
pub tracker_response-Counted :
    (net : Winsock) (response : Bytes) (w : World) (calls : Calls)
    → Returns
        (λ (r : Tracker × World × Calls). Counted (r.0.peers) (r.0.bpeers) calls r.2)
        (tracker_response net response w calls)
unfolding tracker_response
tracker_response-Counted net response w calls =
    let P = λ (r : Tracker × World × Calls). Counted (r.0.peers) (r.0.bpeers) calls r.2 in
    Returns-bind P (parse_bencoded_string response w) _ (λ (root, w') parsed.
      Returns-bind P (read root (check_if_has_key (codes "failure reason")) w'.memory) _
        (λ failed e. elim (Bool-cases failed) [
          | inl k ↦ rw k (
              Returns-bind P (string_under (codes "failure reason") root w'.memory) _
                (λ reason got. tt))
          | inr k ↦ rw k (
              Returns-bind P (accepted net root w'.memory calls) _ (λ r given.
                Returns-eq (λ (s : Tracker × Calls). Counted (s.0.peers) (s.0.bpeers) calls s.1) r
                  (accepted net root w'.memory calls) (accepted-Counted net root w'.memory calls)
                  given))
        ]))
