-- ===== src/Tracker/Laws.antt =====
-- What a response to the first request leads to, by the fields of its dictionary.
use btor.Base.{
  ℕ, suc, ◌%◌, ◌<◌, ◌^◌, ◌≡◌, ◌⊎◌, inl, inr, refl, true, false, none, some, List, [], ◌∷◌, ◌++◌,
  arith,
}
use btor.Base.{Bytes, codes}
use btor.Base.Int.{ℤ, pos}
use btor.Base.Outcome.{ok, exited, bind}
use btor.Bencode.{Items, Fields, int, str, list, dict, no_items, item, encode}
use btor.Cursor.{World}
use btor.Memory.Denotes.{Denotes, DenotesItems}
use btor.Memory.Lookup.{
  field_of, read, read-string, read-list, read-field, read-has_key, read-no_key,
}
use btor.Memory.{Memory, next}
use btor.Object.Dict.{Ptr}
use btor.Object.{is_kind, check_if_has_key}
use btor.Parser.Results.{Prints, parse_bencoded_string-encode}
use btor.Peer.{BPeer, Winsock, Calls, socket_call, new_peer}
use btor.Torrent.Laws.{int_under-Denotes, string_under-Denotes}
use btor.Tracker.{Tracker, read_peers, peers_of, accepted, tracker_response}

-- Each element is a dictionary with the address and the port of a peer.
unfoldable pub AllPeers : Items → List (Bytes × ℕ) → Type 0
AllPeers no_items [] = Unit {0}
AllPeers (item (dict fs) xs) ((ip, port) ∷ ps) =
    (field_of (codes "ip") fs ≡ some (str ip))
    × (field_of (codes "port") fs ≡ some (int (pos port)))
    × (port < 2 ^ 16)
    × AllPeers xs ps
AllPeers _ _ = ⊥

-- The peers that are meant: numbered from `id` on, choking and not interested, each with the socket
-- that the library gave it.
unfoldable pub peers_from : Winsock → ℕ → List (Bytes × ℕ) → Calls → List BPeer
peers_from net id [] calls = []
peers_from net id ((ip, port) ∷ ps) calls =
    record {
      peer_num_id = pos id;
      am_choking = true;
      am_interested = false;
      peer_choking = true;
      peer_interested = false;
      peer_socket = net.socket calls;
      readable_ip = ip;
      port = port;
    }
    ∷ peers_from net (suc id) ps (socket_call ∷ calls)

abbrev pub calls_for : List (Bytes × ℕ) → Calls → Calls
calls_for [] calls = calls
calls_for (p ∷ ps) calls = calls_for ps (socket_call ∷ calls)

-- A response that is no failure: its three numbers.
pub record Numbers (fs : Fields) : Type 0 where
  pub complete : ℤ
  pub incomplete : ℤ
  pub interval : ℤ
  pub no_failure : field_of (codes "failure reason") fs ≡ none
  pub has_complete : field_of (codes "complete") fs ≡ some (int complete)
  pub has_incomplete : field_of (codes "incomplete") fs ≡ some (int incomplete)
  pub has_interval : field_of (codes "interval") fs ≡ some (int interval)

module _ (net : Winsock) (m : Memory) (low : ℕ) where
  read_peers-Denotes :
      (xs : Items) (ps : List (Bytes × ℕ)) (qs : List Ptr) (id : ℕ) (calls : Calls)
      → AllPeers xs ps
      → DenotesItems m low qs xs
      → read_peers net qs id m calls ≡ ok (peers_from net id ps calls, calls_for ps calls)
  unfolding read_peers peers_from AllPeers Denotes new_peer
  read_peers-Denotes no_items [] [] id calls h made = refl
  read_peers-Denotes (item (dict fs) xs) ((ip, port) ∷ ps) (q ∷ qs) id calls h made =
      let at_ip = string_under-Denotes m low q fs made.0 (codes "ip") ip h.0 in
      let at_port = int_under-Denotes m low q fs made.0 (codes "port") (pos port) h.1 in
      let same : port % 2 ^ 64 % 2 ^ 16 ≡ port = omega (arith, h.2) in
      rw (
        at_ip,
        at_port,
        same,
        read_peers-Denotes xs ps qs (suc id) (socket_call ∷ calls) h.3 made.1,
      )
  read_peers-Denotes no_items [] (q ∷ qs) id calls h made = absurd made
  read_peers-Denotes no_items (p ∷ ps) qs id calls h made = absurd h
  read_peers-Denotes (item (int i) xs) ps qs id calls h made = absurd h
  read_peers-Denotes (item (str b) xs) ps qs id calls h made = absurd h
  read_peers-Denotes (item (list ys) xs) ps qs id calls h made = absurd h
  read_peers-Denotes (item (dict fs) xs) [] qs id calls h made = absurd h
  read_peers-Denotes (item (dict fs) xs) (p ∷ ps) [] id calls h made = absurd made

module _ (net : Winsock) (m : Memory) (low : ℕ) (p : Ptr) (fs : Fields)
    (made : Denotes m low p (dict fs)) where
  not_failed :
      field_of (codes "failure reason") fs ≡ none
      → read p (check_if_has_key (codes "failure reason")) m ≡ ok false
  not_failed = read-no_key m low p fs (codes "failure reason") made

  peers_of-list :
      (xs : Items) (ps : List (Bytes × ℕ)) (calls : Calls)
      → field_of (codes "peers") fs ≡ some (list xs)
      → AllPeers xs ps
      → (qs : List Ptr) × (peers_of net p m calls
          ≡ ok (qs, peers_from net 0 ps calls, calls_for ps calls))
        × DenotesItems m low qs xs
  unfolding peers_of is_kind
  peers_of-list xs ps calls e all =
      let (q, at_q, here) = read-field m low p fs (codes "peers") (list xs) made e in
      let (qs, is_list, kind, items) = read-list m low q xs here in
      (qs, rw (at_q, kind, is_list, read_peers-Denotes net m low xs ps qs 0 calls all items), items)

  peers_of-string :
      (s : Bytes) (calls : Calls)
      → field_of (codes "peers") fs ≡ some (str s)
      → peers_of net p m calls ≡ exited 1
  unfolding peers_of is_kind
  peers_of-string s calls e =
      let (q, at_q, here) = read-field m low p fs (codes "peers") (str s) made e in
      let (is_string, kind) = read-string m low q s here in rw (at_q, kind, is_string)

  accepted-Denotes :
      (numbers : Numbers fs) (calls : Calls)
      → accepted net p m calls
        ≡ bind (peers_of net p m calls) λ (peers, bpeers, calls'). ok (
          record {
            complete = numbers.complete;
            incomplete = numbers.incomplete;
            interval = numbers.interval;
            peers = peers;
            bpeers = bpeers;
          },
          calls',
        )
  unfolding accepted
  accepted-Denotes numbers calls =
      let complete =
        int_under-Denotes m low p fs made (codes "complete") numbers.complete
          numbers.has_complete in
      let incomplete =
        int_under-Denotes m low p fs made (codes "incomplete") numbers.incomplete
          numbers.has_incomplete in
      let interval =
        int_under-Denotes m low p fs made (codes "interval") numbers.interval
          numbers.has_interval in
      rw (complete, incomplete, interval)

module _ (net : Winsock) (fs : Fields) (rest : Bytes) (n : ℕ) (w : World) (calls : Calls)
    (h : Prints (dict fs) rest n w) where
  -- From a response in the dictionary form of the peers the program takes the three numbers, and one
  -- peer per element in the order of the list, numbered from 0, each with its address, its port and
  -- a socket of its own; the objects of the peers make up the list.
  pub tracker_response-encode :
      (numbers : Numbers fs) (xs : Items) (ps : List (Bytes × ℕ))
      → field_of (codes "peers") fs ≡ some (list xs)
      → AllPeers xs ps
      → (tracker : Tracker) × (w' : World) × (tracker_response net
            (encode (dict fs) ++ rest)
            w
            calls
          ≡ ok (tracker, w', calls_for ps calls))
        × (tracker.complete ≡ numbers.complete)
        × (tracker.incomplete ≡ numbers.incomplete)
        × (tracker.interval ≡ numbers.interval)
        × (tracker.bpeers ≡ peers_from net 0 ps calls)
        × DenotesItems w'.memory (next w.memory) tracker.peers xs
  unfolding tracker_response
  tracker_response-encode numbers xs ps e all =
      let (w', runs, made, _, _) = parse_bencoded_string-encode (dict fs) rest n w h in
      let p = next w.memory in
      let (qs, peers, items) = peers_of-list net w'.memory p p fs made xs ps calls e all in
      let fine = not_failed net w'.memory p p fs made numbers.no_failure in
      let taken = accepted-Denotes net w'.memory p p fs made numbers calls in
      (_, w', rw (runs, fine, taken, peers), refl, refl, refl, refl, items)

  -- The program exits with 1 on a response that gives a failure reason, and on one that gives its
  -- peers in the binary form, a string.
  pub tracker_response-exited :
      ((reason : Bytes) × (field_of (codes "failure reason") fs ≡ some (str reason)))
        ⊎ (Numbers fs × ((s : Bytes) × (field_of (codes "peers") fs ≡ some (str s))))
      → tracker_response net (encode (dict fs) ++ rest) w calls ≡ exited 1
  unfolding tracker_response
  tracker_response-exited (inl (reason, e)) =
      let (w', runs, made, _, _) = parse_bencoded_string-encode (dict fs) rest n w h in
      let p = next w.memory in
      let failed = read-has_key w'.memory p p fs (codes "failure reason") (str reason) made e in
      let why = string_under-Denotes w'.memory p p fs made (codes "failure reason") reason e in
      rw (runs, failed, why)
  tracker_response-exited (inr (numbers, (s, e))) =
      let (w', runs, made, _, _) = parse_bencoded_string-encode (dict fs) rest n w h in
      let p = next w.memory in
      let fine = not_failed net w'.memory p p fs made numbers.no_failure in
      let taken = accepted-Denotes net w'.memory p p fs made numbers calls in
      rw (runs, fine, taken, peers_of-string net w'.memory p p fs made s calls e)
