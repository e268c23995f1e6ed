-- ===== src/Tests.antt =====
-- Runs on small inputs, and the theorems applied at them.
mod Components
mod Objects
mod Torrents
mod Trackers
mod Sessions
mod Units
use btor.Announce.{
  id_loop, get_server_address, get_announce_path, url_encode, generate_id, exit_failure,
}
use btor.Announce.Encode.{url_encode-percent, percent, decode}
use btor.Announce.PeerId.{generate_id-digits, last_digits}
use btor.Announce.Url.{url_split}
use btor.Base.{
  ◌/◌, none, drop, ℕ, ◌+◌, ◌*◌, ◌<◌, ◌≤◌, ◌^◌, ◌≡◌, ◌⊎◌, inl, inr, refl, Bool, true, false, some,
  List, [], ◌∷◌, ◌++◌, arith,
}
use btor.Base.{Bytes, codes, length, take, bytes_eq, bytes_compare, if◌then◌else◌, ◌==◌}
use btor.Base.Decimal.{decimal, decimal_fuel, decimal_int, digits_value, is_digit}
use btor.Base.Int.{ℤ, neg_ℕ, pos, negsuc}
use btor.Base.Outcome.{bind, ok, raised, key_error, type_error, exited, undefined}
use btor.Bencode.{
  Value, Fields, dict, list, int, str, item, no_items, field, no_fields, encode, encode_string,
  encode_int, IsReadable, total_length,
}
use btor.Bitfield.{set_bit_in_bitfield, is_bit_in_bitfield_set}
use btor.Bitfield.Laws.{AllBytes, is_bit_set-set_bit}
use btor.Cursor.Sees.{Sees, advance}
use btor.Cursor.{World, new_world, taken}
use btor.Memory.Build.{created}
use btor.Memory.Denotes.{Denotes}
use btor.Memory.{next}
use btor.Metainfo.{Metainfo, BState, get_bitfield_size, ceil}
use btor.Files.{Files, zeros, load_bitfield, write_bitfield, does_bitfield_file_exist}
use btor.Files.Laws.{load_bitfield-write_bitfield, load_bitfield-twice}
use btor.Metainfo.Size.{get_bitfield_size-set_bit}
use btor.Peer.{
  Winsock, BPeer, new_peer, destroy_peer, send_message, try_receive, close_connection,
  get_handshake,
}
use btor.Peer.Handshake.{get_handshake-generate_id}
use btor.Peer.Calls.{
  closes, FallsOff, GivesUp, try_receive-close_connection, destroy_peer-send_message,
}
use btor.Object.Dict.{Ptr, insert}
use btor.Object.Laws.{get_by_key-add_key_value, check_if_has_key-get_by_key}
use btor.Object.Sorted.{IsSorted}
use btor.Object.{BObject, of_dict, of_int, add_key_value, check_if_has_key, get_by_key}
use btor.Sock.{SockNet, BSock, open_socket}
use btor.Sock.Frees.{Released, Fails, created_sockets, open_socket-Released}
use btor.Parser.Fuel.{Ends}
use btor.Parser.Info.{join, HasNoInfo, FieldsNoInfo}
use btor.Parser.Rejects.{parse_bencoded_string-empty, parse_integer-digits}
use btor.Parser.Results.{Prints, parse_bencoded_string-encode, parse_bencoded_string-info}
use btor.Parser.Terminates.{parse_bencoded_string-Ends}
use btor.Parser.{
  parse_bencoded_string, parse_integer, get_collected_length, get_collected_info_dict, is_length,
}

-- d8:announce3:udp4:infod6:lengthi42e1:nli-7eeee
abbrev pub before : Fields
before = field (codes "announce") (str (codes "udp")) no_fields

abbrev pub info : Value
info = dict (
    field (codes "length") (int (pos 42))
      (field (codes "n") (list (item (int (negsuc 6)) no_items)) no_fields))

abbrev pub torrent : Value
torrent = dict (join before (field (codes "info") info no_fields))

text : encode torrent ≡ codes "d8:announce3:udp4:infod6:lengthi42e1:nli-7eeee"
unfolding encode encode_string encode_int decimal decimal_fuel decimal_int join
text = refl

-- What the program collects while it reads the text.
torrent_collected :
    bind {B = ℤ × Bytes}
      (parse_bencoded_string (encode torrent) new_world)
      (λ (p, w). ok (get_collected_length w, get_collected_info_dict w))
    ≡ ok (pos 42, codes "d6:lengthi42e1:nli-7eee")
unfolding encode encode_string encode_int decimal decimal_fuel decimal_int join
    parse_bencoded_string get_collected_length get_collected_info_dict btor.Parser.parse_arbitrary
    btor.Cursor.peek_char btor.Parser.dispatch btor.Cursor.consume_char btor.Cursor.alloc
    btor.Parser.extract_string taken btor.Parser.length_loop btor.Base.Decimal.is_digit
    btor.Parser.read_loop btor.Parser.before_value bytes_eq btor.Parser.parse_string
    btor.Parser.after_value btor.Cursor.update btor.Memory.deref btor.Memory.get_new_bobject
    btor.Base.Int.◌+ℤ◌ bytes_compare btor.Cursor.query btor.Memory.store insert add_key_value
    btor.Object.get_int btor.Object.is_kind btor.Object.push_back btor.Parser.add_length
    btor.Parser.integer_loop parse_integer btor.Parser.throw_parser_error
torrent_collected = refl

-- Where a value before it has a key "info" of its own, both texts are collected.
two_infos_collected :
    bind {B = Bytes}
      (parse_bencoded_string (codes "d1:ad4:infoi1ee4:infoi2ee") new_world)
      (λ (p, w). ok (get_collected_info_dict w))
    ≡ ok (codes "i1ei2e")
unfolding parse_bencoded_string get_collected_info_dict btor.Parser.parse_arbitrary
    btor.Cursor.peek_char btor.Parser.dispatch btor.Cursor.consume_char btor.Cursor.alloc
    btor.Parser.extract_string taken btor.Parser.length_loop btor.Base.Decimal.is_digit
    btor.Parser.read_loop btor.Parser.before_value bytes_eq btor.Parser.parse_string
    btor.Parser.after_value btor.Cursor.update btor.Memory.deref btor.Memory.get_new_bobject
    btor.Base.Int.◌+ℤ◌ bytes_compare btor.Cursor.query btor.Memory.store insert add_key_value
    btor.Object.get_int btor.Object.is_kind btor.Object.push_back btor.Parser.add_length
    btor.Parser.integer_loop parse_integer btor.Parser.throw_parser_error
two_infos_collected = refl

pub torrent-Prints : Prints torrent [] 0 new_world
unfolding encode encode_string encode_int decimal decimal_fuel decimal_int join IsReadable
    total_length bytes_eq
torrent-Prints = record {
  readable = (
    tt,
    (
      omega arith,
      refl,
      omega arith,
      (
        omega arith,
        refl,
        (tt, (omega arith, tt, omega arith, (omega arith, refl, (tt, (omega arith, tt)), tt))),
        tt,
      ),
    ),
  );
  small = omega arith;
  collected = refl;
  room = omega arith;
}

parse_bencoded_string-encode_example :
    (w' : World) × (parse_bencoded_string (encode torrent ++ []) new_world
      ≡ ok (next new_world.memory, w'))
    × Denotes w'.memory (next new_world.memory) (next new_world.memory) torrent
    × Sees [] w'.parser
    × (get_collected_length w' ≡ pos (0 + total_length torrent))
parse_bencoded_string-encode_example =
    parse_bencoded_string-encode torrent [] 0 new_world torrent-Prints

parse_bencoded_string-Ends_example :
    Ends 1
      (record new_world {
        parser = record new_world.parser { cursor = 0; parse_buf = codes "l3:abce" };
      })
      (parse_bencoded_string (codes "l3:abce") new_world)
parse_bencoded_string-Ends_example =
    parse_bencoded_string-Ends (codes "l3:abce") new_world (omega arith)

pub before-FieldsNoInfo : FieldsNoInfo before
unfolding HasNoInfo bytes_eq
before-FieldsNoInfo = (refl, tt, tt)

pub info-HasNoInfo : HasNoInfo info
unfolding HasNoInfo bytes_eq
info-HasNoInfo = (refl, tt, (refl, (tt, tt), tt))

parse_bencoded_string-info_example :
    (p : Ptr) × (w' : World) × (parse_bencoded_string
        (encode (dict (join before (field (codes "info") info no_fields))) ++ [])
        new_world
      ≡ ok (p, w'))
    × (get_collected_info_dict w' ≡ encode info)
parse_bencoded_string-info_example =
    parse_bencoded_string-info before info no_fields [] 0 new_world before-FieldsNoInfo
      info-HasNoInfo (unfold HasNoInfo in tt) torrent-Prints refl refl

parse_bencoded_string-empty_example :
    (parse_bencoded_string (encode (list no_items) ++ codes "e") new_world ≡ undefined)
    × (parse_bencoded_string (encode (dict no_fields) ++ codes "e") new_world ≡ undefined)
parse_bencoded_string-empty_example =
    parse_bencoded_string-empty (codes "e") new_world (omega arith)
