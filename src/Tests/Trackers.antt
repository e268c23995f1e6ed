-- ===== src/Tests/Trackers.antt =====
-- The theorems on the tracker's response, applied to a tracker with two peers.
use btor.Base.{
  ℕ, ◌+◌, ◌<◌, ◌^◌, ◌≡◌, inl, inr, refl, true, false, some, none, List, [], ◌∷◌, ◌++◌, arith,
}
use btor.Base.{Bytes, codes, bytes_eq, length, take, if◌then◌else◌}
use btor.Base.Int.{pos, negsuc}
use btor.Base.Outcome.{ok, exited}
use btor.Bencode.{
  Fields, Items, dict, list, int, str, field, no_fields, item, no_items, encode, IsReadable,
  total_length,
}
use btor.Cursor.{World, new_world}
use btor.Memory.Denotes.{DenotesItems}
use btor.Memory.Lookup.{field_of}
use btor.Memory.{next}
use btor.Parser.Results.{Prints}
use btor.Peer.{Winsock}
use btor.Base.{bytes_compare, ◌≤◌}
use btor.Object.Dict.{Ptr}
use btor.Parser.{parse_bencoded_string}
use btor.Print.Reorders.{Reorders, swap, print_object-Reorders}
use btor.Print.Shows.{size}
use btor.Print.{print_object}
use btor.Tracker.Laws.{
  AllPeers, Numbers, peers_from, calls_for, tracker_response-encode, tracker_response-exited,
}
use btor.Memory.Sound.{IsSound, new_memory-IsSound}
use btor.Tracker.Sound.{IsListed, tracker_response-IsSound}
use btor.Tracker.{Tracker, tracker_response}

-- d2:ip1:a4:porti6881ee
abbrev peer : Bytes → ℕ → Fields
peer ip port = field (codes "ip") (str ip) (field (codes "port") (int (pos port)) no_fields)

abbrev pub two_peers : Items
two_peers = item (dict (peer (codes "a") 6881)) (item (dict (peer (codes "b") 80)) no_items)

abbrev pub reply : Fields
reply = field (codes "complete") (int (pos 1)) (
    field (codes "incomplete") (int (pos 2))
      (field (codes "interval") (int (pos 30)) (field (codes "peers") (list two_peers) no_fields)))

abbrev pub addresses : List (Bytes × ℕ)
addresses = (codes "a", 6881) ∷ (codes "b", 80) ∷ []

pub reply-AllPeers : AllPeers two_peers addresses
unfolding AllPeers field_of bytes_eq
reply-AllPeers = (refl, refl, omega arith, (refl, refl, omega arith, tt))

peer-IsReadable :
    (ip : Bytes) (port : ℕ) → length ip < 2 ^ 31 → port < 2 ^ 63 → IsReadable (dict (peer ip port))
unfolding IsReadable bytes_eq
peer-IsReadable ip port h h' =
    (tt, (omega arith, refl, omega (arith, h), (omega arith, tt, omega (arith, h'), tt)))

pub reply-Numbers : Numbers reply
unfolding field_of bytes_eq
reply-Numbers = record {
  complete = pos 1;
  incomplete = pos 2;
  interval = pos 30;
  no_failure = refl;
  has_complete = refl;
  has_incomplete = refl;
  has_interval = refl;
}

pub reply-peers : field_of (codes "peers") reply ≡ some (list two_peers)
unfolding field_of bytes_eq
reply-peers = refl

pub reply-IsReadable : IsReadable (dict reply)
unfolding IsReadable bytes_eq
reply-IsReadable =
    let first = peer-IsReadable (codes "a") 6881 (omega arith) (omega arith) in
    let second = peer-IsReadable (codes "b") 80 (omega arith) (omega arith) in
    (
      tt,
      (
        omega arith,
        tt,
        omega arith,
        (
          omega arith,
          tt,
          omega arith,
          (omega arith, tt, omega arith, (omega arith, refl, (tt, (first, (second, tt))), tt)),
        ),
      ),
    )

pub reply_small : length (encode (dict reply) ++ []) < 2 ^ 32
unfolding encode btor.Bencode.encode_string btor.Bencode.encode_int btor.Base.Decimal.decimal
    btor.Base.Decimal.decimal_fuel btor.Base.Decimal.decimal_int
reply_small = omega arith

reply-Prints : Prints (dict reply) [] 0 new_world
unfolding total_length bytes_eq
reply-Prints = record {
  readable = reply-IsReadable;
  small = reply_small;
  collected = refl;
  room = omega arith;
}

-- A socket library that gives every peer the socket 3 and refuses every connection.
abbrev pub refuses : Winsock
refuses = record {
  socket = λ calls. some 3;
  connect = λ calls. negsuc 0;
  send = λ calls. negsuc 0;
  is_set = λ calls. false;
  recv = λ calls. (pos 0, []);
  shutdown = λ calls. pos 0;
}

tracker_response-encode_example :
    (tracker : Tracker) × (w' : World) × (tracker_response refuses
        (encode (dict reply) ++ [])
        new_world
        []
      ≡ ok (tracker, w', calls_for addresses []))
    × (tracker.complete ≡ reply-Numbers.complete)
    × (tracker.incomplete ≡ reply-Numbers.incomplete)
    × (tracker.interval ≡ reply-Numbers.interval)
    × (tracker.bpeers ≡ peers_from refuses 0 addresses [])
    × DenotesItems w'.memory (next new_world.memory) tracker.peers two_peers
tracker_response-encode_example =
    tracker_response-encode refuses reply [] 0 new_world [] reply-Prints reply-Numbers two_peers
      addresses reply-peers reply-AllPeers

-- d14:failure reason2:noe
abbrev refusal : Fields
refusal = field (codes "failure reason") (str (codes "no")) no_fields

refusal_reason : field_of (codes "failure reason") refusal ≡ some (str (codes "no"))
unfolding field_of bytes_eq
refusal_reason = refl

refusal-Prints : Prints (dict refusal) [] 0 new_world
unfolding total_length bytes_eq encode btor.Bencode.encode_string btor.Base.Decimal.decimal
    btor.Base.Decimal.decimal_fuel IsReadable
refusal-Prints = record {
  readable = (tt, (omega arith, refl, omega arith, tt));
  small = omega arith;
  collected = refl;
  room = omega arith;
}

tracker_response-exited_example :
    tracker_response refuses (encode (dict refusal) ++ []) new_world [] ≡ exited 1
tracker_response-exited_example =
    tracker_response-exited refuses refusal [] 0 new_world [] refusal-Prints
      (inl (codes "no", refusal_reason))

-- The response with its first two fields in the other order.
abbrev reply_behind : Fields
reply_behind =
    field (codes "interval") (int (pos 30)) (field (codes "peers") (list two_peers) no_fields)

abbrev swapped_reply : Fields
swapped_reply =
    field (codes "incomplete") (int (pos 2)) (field (codes "complete") (int (pos 1)) reply_behind)

reply-Reorders : Reorders reply swapped_reply
unfolding bytes_compare
reply-Reorders =
    swap (codes "complete") (codes "incomplete") (int (pos 1)) (int (pos 2)) reply_behind
      (λ e. cc e)

reply-size : size (dict reply) ≤ 20
unfolding size
reply-size = omega arith

print_object-Reorders_example :
    (s : Bytes) × (p q : Ptr) × (w₁ w₂ : World) × (parse_bencoded_string
        (encode (dict reply) ++ [])
        new_world
      ≡ ok (p, w₁))
    × (print_object 20 w₁.memory p ≡ ok s)
    × (parse_bencoded_string (encode (dict swapped_reply) ++ []) new_world ≡ ok (q, w₂))
    × (print_object 20 w₂.memory q ≡ ok s)
print_object-Reorders_example =
    print_object-Reorders reply swapped_reply [] 0 new_world 20 reply-Reorders reply-Prints
      reply-size

-- What the program takes from the response.
abbrev run_of_reply :
    (tracker : Tracker) × (w' : World) × (tracker_response refuses
        (encode (dict reply) ++ [])
        new_world
        []
      ≡ ok (tracker, w', calls_for addresses []))
run_of_reply =
    let r =
      tracker_response-encode refuses reply [] 0 new_world [] reply-Prints reply-Numbers two_peers
        addresses reply-peers reply-AllPeers in
    (r.0, r.1, r.2)

tracker_response-IsSound_example :
    IsSound run_of_reply.1.memory × IsListed run_of_reply.1.memory (run_of_reply.0.peers)
tracker_response-IsSound_example =
    tracker_response-IsSound refuses (encode (dict reply) ++ []) new_world run_of_reply.1 []
      (calls_for addresses []) run_of_reply.0 new_memory-IsSound run_of_reply.2
