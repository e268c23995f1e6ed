-- ===== src/Tests/Components.antt =====
-- The theorems on objects, bits, addresses, peers, files and sockets, applied.
use btor.Announce.{id_loop, get_server_address, get_announce_path, url_encode, generate_id}
use btor.Announce.Encode.{url_encode-percent, percent, decode}
use btor.Announce.PeerId.{generate_id-digits, last_digits}
use btor.Announce.Url.{IsAbsent, without_slash, url_parts}
use btor.Base.{
  ◌⊎◌, ◌/◌, ◌-◌, ◌^◌, none, drop, ℕ, ◌+◌, ◌*◌, ◌<◌, ◌≡◌, ◌⊎◌, inr, refl, true, false, some, List,
  [], ◌∷◌, ◌++◌, arith,
}
use btor.Base.{Bytes, codes, length, take, bytes_eq}
use btor.Base.Decimal.{decimal, decimal_fuel}
use btor.Base.Int.{pos, negsuc}
use btor.Base.Outcome.{ok, raised, key_error, type_error, undefined}
use btor.Bitfield.{as_int, set_bit_in_bitfield, is_bit_in_bitfield_set}
use btor.Bitfield.Laws.{AllBytes, is_bit_set-set_bit}
use btor.Metainfo.{Metainfo, BState, get_bitfield_size, ceil}
use btor.Files.{Files, zeros, load_bitfield, write_bitfield, does_bitfield_file_exist}
use btor.Files.Laws.{load_bitfield-write_bitfield, load_bitfield-twice}
use btor.Metainfo.Size.{get_bitfield_size-set_bit}
use btor.Peer.{
  Socket, Winsock, BPeer, new_peer, destroy_peer, send_message, try_receive, close_connection,
  get_handshake,
}
use btor.Peer.Handshake.{get_handshake-generate_id}
use btor.Peer.Calls.{
  closes, FallsOff, GivesUp, try_receive-close_connection, destroy_peer-send_message,
}
use btor.Object.Dict.{Ptr}
use btor.Object.Laws.{get_by_key-add_key_value, check_if_has_key-get_by_key}
use btor.Object.Sorted.{IsSorted}
use btor.Object.{BObject, of_dict, add_key_value, check_if_has_key, get_by_key}
use btor.Sock.{SockNet, BSock, open_socket}
use btor.Sock.Frees.{Released, Fails, open_socket-Released}

-- a dictionary with one entry
abbrev ages : BObject
ages = of_dict ((codes "b", 4) ∷ [])

has_b : check_if_has_key (codes "b") ages ≡ ok true
unfolding check_if_has_key bytes_eq
has_b = refl

get_by_key-add_key_value_example :
    (o' : BObject) × (add_key_value (codes "a") 7 ages ≡ ok o')
    × IsSorted o'.dict_val
    × (get_by_key (codes "b") o' ≡ get_by_key (codes "b") ages)
get_by_key-add_key_value_example =
    get_by_key-add_key_value (codes "b") (codes "a") 7 ages true (tt, tt) has_b

check_if_has_key-get_by_key_example :
    ((check_if_has_key (codes "b") ages ≡ ok true)
      × ((p : Ptr) × (get_by_key (codes "b") ages ≡ ok p)))
    ⊎ ((check_if_has_key (codes "b") ages ≡ ok false)
        × (get_by_key (codes "b") ages ≡ raised key_error))
    ⊎ ((check_if_has_key (codes "b") ages ≡ raised type_error)
        × (get_by_key (codes "b") ages ≡ raised type_error))
check_if_has_key-get_by_key_example = check_if_has_key-get_by_key (codes "b") ages

is_bit_set-set_bit_example :
    (bitfield' : Bytes) × (set_bit_in_bitfield (0 ∷ 0x40 ∷ []) (pos 8) ≡ ok bitfield')
    × (is_bit_in_bitfield_set bitfield' (pos 9) ≡ is_bit_in_bitfield_set (0 ∷ 0x40 ∷ []) (pos 9))
    × (length bitfield' ≡ 2)
    × AllBytes bitfield'
is_bit_set-set_bit_example =
    is_bit_set-set_bit (0 ∷ 0x40 ∷ []) 8 9 (omega arith, (omega arith, tt)) (omega arith)
      (omega arith) (omega arith)

-- An argument that does not fit is cut to 32 bits: this one becomes -1.
set_bit_wraps : set_bit_in_bitfield (0 ∷ []) (pos (2 ^ 35 - 1)) ≡ undefined
unfolding set_bit_in_bitfield as_int
set_bit_wraps = refl

url_parts_example :
    ((server path : Bytes) × (codes "http://a/b" ≡ server ++ b'/' ∷ path)
      × IsAbsent b'/' path
      × (get_server_address 64 (codes "http://a/b") ≡ ok server)
      × (get_announce_path 64 (codes "http://a/b") ≡ ok path))
    ⊎ (IsAbsent b'/' (codes "http://a/b")
        × (get_server_address 64 (codes "http://a/b") ≡ without_slash 64 (codes "http://a/b"))
        × (get_announce_path 64 (codes "http://a/b") ≡ without_slash 64 (codes "http://a/b")))
url_parts_example = url_parts 64 (codes "http://a/b") (inr refl) (omega arith)

url_encode-percent_example :
    (url_encode (codes "c0ffee") ≡ percent (codes "c0ffee"))
    × (decode (url_encode (codes "c0ffee")) ≡ codes "c0ffee")
url_encode-percent_example = url_encode-percent (codes "c0ffee")

url_encode_test : url_encode (codes "c0ffee") ≡ codes "%c0%ff%ee"
unfolding url_encode
url_encode_test = refl

abbrev pub rolls : List ℕ
rolls = 10 ∷ 21 ∷ 32 ∷ 43 ∷ 54 ∷ 65 ∷ 76 ∷ 87 ∷ 98 ∷ 109 ∷ 110 ∷ 121 ∷ 132 ∷ []

generate_id-digits_example :
    (id : Bytes) × (generate_id rolls ≡ some id)
    × (id ≡ codes "-btor01-" ++ last_digits (take 12 rolls))
    × (length id ≡ 20)
generate_id-digits_example = generate_id-digits rolls (omega arith)

-- a torrent of 100 bytes in pieces of 8
abbrev small_torrent : Metainfo
small_torrent = record {
  announce = [];
  infodict = [];
  info_hash_hex = [];
  info_hash_raw = codes "0123456789abcdefghij";
  fileinfo = [];
  total_length = pos 100;
  piece_length = 8;
  pieces = [];
}

get_bitfield_size-set_bit_example :
    (s : ℕ) × (get_bitfield_size (λ n. n) small_torrent ≡ ok s)
    × (((s * 8 * 8 ≡ 100) × ((b : Bytes) × (set_bit_in_bitfield (zeros s) (pos (99 / 8)) ≡ ok b)))
        ⊎ ((s * 8 * 8 < 100) × (set_bit_in_bitfield (zeros s) (pos (99 / 8)) ≡ undefined)))
get_bitfield_size-set_bit_example =
    get_bitfield_size-set_bit (λ n. n) small_torrent 100 (λ n small. refl) refl (omega arith)
      (omega arith) (omega arith) (omega arith)

small_size : get_bitfield_size (λ n. n) small_torrent ≡ ok 1
unfolding get_bitfield_size ceil
small_size = refl

-- a client that shares it
abbrev client : BState
client = record {
  filename = codes "a.torrent";
  big_endian = false;
  metainfo = small_torrent;
  unique_id = codes "-btor01-012345678901";
  bitfield = [];
}

client_id : generate_id rolls ≡ some client.unique_id
unfolding generate_id id_loop decimal decimal_fuel
client_id = refl

get_handshake-generate_id_example :
    (length (get_handshake client) ≡ 68)
    × (take 20 (drop 28 (get_handshake client)) ≡ codes "0123456789abcdefghij")
    × (drop 48 (get_handshake client) ≡ codes "-btor01-012345678901")
get_handshake-generate_id_example =
    get_handshake-generate_id client rolls refl (omega arith) client_id

-- a socket library on which sending fails
abbrev no_send : Winsock
no_send = record {
  socket = λ calls. some 3;
  connect = λ calls. pos 0;
  send = λ calls. negsuc 0;
  is_set = λ calls. true;
  recv = λ calls. (pos 2, codes "abc");
  shutdown = λ calls. pos 0;
}

abbrev first_peer : BPeer
first_peer = (new_peer no_send (codes "10.0.0.1") 6886 (pos 0) []).0

try_receive-close_connection_example :
    (FallsOff 0 [] (try_receive no_send first_peer [])
      ⊎ GivesUp first_peer [] (try_receive no_send first_peer []))
    × (FallsOff 1 [] (close_connection no_send first_peer [])
        ⊎ GivesUp first_peer [] (close_connection no_send first_peer []))
try_receive-close_connection_example = try_receive-close_connection no_send first_peer []

destroy_peer-send_message_example :
    let (p, built) = new_peer no_send (codes "10.0.0.1") 6886 (pos 0) [] in
    let (r, sent) = send_message no_send p (codes "hello") built in
    ((r ≡ ok (pos 0)) × (closes (destroy_peer p sent) ≡ 1 + closes []))
    ⊎ ((r ≡ ok (negsuc 0)) × (closes (destroy_peer p sent) ≡ 2 + closes []))
destroy_peer-send_message_example =
    destroy_peer-send_message no_send (codes "10.0.0.1") 6886 (pos 0) (codes "hello") []

-- a directory where every file can be written
abbrev directory : Files
directory = record { contents = λ name. none; writable = λ name. true }

abbrev finished : BState
finished = record client { bitfield = 0xC0 ∷ [] }

load_bitfield-write_bitfield_example :
    load_bitfield (λ n. n) client (write_bitfield (codes "a.torrentbf") finished directory)
    ≡ ok (
      record client { bitfield = 0xC0 ∷ [] },
      write_bitfield (codes "a.torrentbf") finished directory,
    )
load_bitfield-write_bitfield_example =
    load_bitfield-write_bitfield (λ n. n) finished client directory refl refl

no_file : does_bitfield_file_exist (codes "a.torrentbf") directory ≡ false
unfolding does_bitfield_file_exist
no_file = refl

load_bitfield-twice_example :
    (files' : Files) × (load_bitfield (λ n. n) client directory
      ≡ ok (record client { bitfield = zeros 1 }, files'))
    × (load_bitfield (λ n. n) (record client { bitfield = zeros 1 }) files'
        ≡ ok (record client { bitfield = zeros 1 }, files'))
load_bitfield-twice_example =
    load_bitfield-twice (λ n. n) client directory 1 no_file refl small_size

-- a library on which binding fails
abbrev no_bind : SockNet
no_bind = record {
  on_startup = λ calls. 0;
  on_getaddrinfo = λ calls. 0;
  on_socket = λ calls. some 3;
  on_bind = λ calls. negsuc 0;
  on_listen = λ calls. pos 0;
}

abbrev fresh_sock : BSock
fresh_sock = record { own_socket = none }

open_socket-Released_example :
    let (r, b', after) = open_socket no_bind fresh_sock [] in
    ((r ≡ ok (pos 0))
      × ((n : ℕ) × (◌≡◌ {A = Socket} (some 3) (some n)))
      × (b'.own_socket ≡ some 3)
      × Released 1 [] 0 [] after)
    ⊎ (Fails r × (b'.own_socket ≡ some 3) × Released 1 (some 3 ∷ []) 1 [] after)
    ⊎ ((r ≡ ok (negsuc 0)) × (b' ≡ fresh_sock) × Released 0 [] 1 [] after)
open_socket-Released_example = open_socket-Released no_bind fresh_sock []
