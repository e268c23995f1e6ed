-- ===== src/Tracker/Sound.antt =====
-- What holds of any response to the first request, also one that no tracker should send.
use btor.Base.{◌<◌, ◌≡◌, List, inl, inr}
use btor.Base.{get_elem?, get_elem?-some_lt, Option-cases}
use btor.Base.{Bytes, codes, Bool-cases}
use btor.Base.Outcome.{ok, Returns, Returns-bind, Returns-eq}
use btor.Cursor.{World}
use btor.Memory.Lookup.{read, kind_of}
use btor.Memory.Sound.{IsSound, AllBetween, deref-IsSound}
use btor.Memory.{Memory, next, deref}
use btor.Object.Dict.{Ptr}
use btor.Object.{
  BObject, b_list, b_string, is_kind, get_list, get_string, get_by_key, check_if_has_key,
}
use btor.Parser.Keeps.{parse_bencoded_string-IsSound}
use btor.Parser.{parse_bencoded_string}
use btor.Peer.{BPeer, Winsock, Calls}
use btor.Torrent.{int_under, string_under}
use btor.Tracker.{Tracker, read_peers, peers_of, accepted, tracker_response}

-- Where the peers of a response lie.
abbrev pub IsListed : Memory → List Ptr → Type 0
IsListed m ps = (q : Ptr) × AllBetween q (next m) ps

get_list-Returns :
    (m : Memory) (q : Ptr) (o : BObject)
    → AllBetween q (next m) o.list_val
    → Returns (IsListed m) (get_list o)
unfolding get_list
get_list-Returns m q o h = elim (Bool-cases (is_kind o.kind b_list)) [
  | inl k ↦ rw k (q, h)
  | inr k ↦ rw k tt
]

module _ (m : Memory) (sound : IsSound m) where
  deref-next : (q : Ptr) (o : BObject) → deref q m ≡ ok o → q < next m
  unfolding deref
  deref-next q o e = elim (Option-cases (get_elem? m.heap q)) [
    | inl gone ↦ absurd (cc (rw gone at e))
    | inr (c, here) ↦ get_elem?-some_lt m.heap q here
  ]

  read-IsListed : (q : Ptr) (ps : List Ptr) → read q get_list m ≡ ok ps → IsListed m ps
  read-IsListed q ps = Returns-eq (IsListed m) ps (read q get_list m) (
      Returns-bind (IsListed m) (deref q m) get_list (λ o here.
        let (o', here', behind) = deref-IsSound m sound q (deref-next q o here) in
        let same : o' ≡ o = cc (here, here') in get_list-Returns m q o (rw same at behind.0)))

  peers_of-IsListed :
      (net : Winsock) (root : Ptr) (calls : Calls)
      → Returns (λ (r : List Ptr × List BPeer × Calls). IsListed m r.0) (peers_of net root m calls)
  unfolding peers_of
  peers_of-IsListed net root calls =
      let P = λ (r : List Ptr × List BPeer × Calls). IsListed m r.0 in
      Returns-bind P (read root (get_by_key (codes "peers")) m) _ (λ p found.
        Returns-bind P (read p kind_of m) _ (λ kind is_it.
          elim (Bool-cases (is_kind kind b_string)) [
            | inl k ↦ rw k (Returns-bind P (read p get_string m) _ (λ s got. tt))
            | inr k ↦ rw k (
                Returns-bind P (read p get_list m) _ (λ qs got.
                  Returns-bind P (read_peers net qs 0 m calls) _
                    (λ made given. read-IsListed p qs got)))
          ]))

  accepted-IsListed :
      (net : Winsock) (root : Ptr) (calls : Calls)
      → Returns (λ (r : Tracker × Calls). IsListed m (r.0.peers)) (accepted net root m calls)
  unfolding accepted
  accepted-IsListed net root calls =
      let P = λ (r : Tracker × Calls). IsListed m (r.0.peers) in
      Returns-bind P (int_under (codes "complete") root m) _ (λ c e.
        Returns-bind P (int_under (codes "incomplete") root m) _ (λ i e'.
          Returns-bind P (int_under (codes "interval") root m) _ (λ n e''.
            Returns-bind P (peers_of net root m calls) _ (λ r given.
              Returns-eq (λ (s : List Ptr × List BPeer × Calls). IsListed m s.0) r
                (peers_of net root m calls) (peers_of-IsListed net root calls) given))))

tracker_response-Returns :
    (net : Winsock) (response : Bytes) (w : World) (calls : Calls)
    → IsSound w.memory
    → Returns
        (λ (r : Tracker × World × Calls). IsSound r.1.memory × IsListed r.1.memory (r.0.peers))
        (tracker_response net response w calls)
unfolding tracker_response
tracker_response-Returns net response w calls sound =
    let P = λ (r : Tracker × World × Calls). IsSound r.1.memory × IsListed r.1.memory (r.0.peers) in
    Returns-bind P (parse_bencoded_string response w) _ (λ (root, w') parsed.
      let (sound', _, _) = parse_bencoded_string-IsSound response w root w' sound parsed in
      Returns-bind P (read root (check_if_has_key (codes "failure reason")) w'.memory) _
        (λ failed e. elim (Bool-cases failed) [
          | inl k ↦ rw k (
              Returns-bind P (string_under (codes "failure reason") root w'.memory) _
                (λ reason got. tt))
          | inr k ↦ rw k (
              Returns-bind P (accepted net root w'.memory calls) _ (λ r given. (
                sound',
                Returns-eq (λ (s : Tracker × Calls). IsListed w'.memory (s.0.peers)) r
                    (accepted net root w'.memory calls)
                    (accepted-IsListed w'.memory sound' net root calls) given,
              )))
        ]))

-- Whatever the tracker sends, where the program takes it the objects in memory are sound as they were
-- before, and every object that it takes for a peer is among them.
pub tracker_response-IsSound :
    (net : Winsock) (response : Bytes) (w w' : World) (calls calls' : Calls) (tracker : Tracker)
    → IsSound w.memory
    → tracker_response net response w calls ≡ ok (tracker, w', calls')
    → IsSound w'.memory × IsListed w'.memory tracker.peers
tracker_response-IsSound net response w w' calls calls' tracker sound =
    Returns-eq
      (λ (r : Tracker × World × Calls). IsSound r.1.memory × IsListed r.1.memory (r.0.peers))
      (tracker, w', calls') (tracker_response net response w calls)
      (tracker_response-Returns net response w calls sound)
