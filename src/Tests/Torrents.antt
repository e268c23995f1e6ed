-- ===== src/Tests/Torrents.antt =====
-- The theorems on the torrent file and its hash, applied to a small torrent.
use btor.Base.{ℕ, ◌+◌, ◌<◌, ◌≡◌, refl, List, [], ◌∷◌, ◌++◌, arith}
use btor.Base.{Bytes, codes, length, take}
use btor.Base.Int.{pos}
use btor.Base.Outcome.{ok}
use btor.Bencode.{dict, field, int, str, no_fields, encode, total_length}
use btor.Cursor.{World, new_world}
use btor.Hash.{get_sha1}
use btor.Hash.Hex.{words, get_sha1-words}
use btor.Parser.Results.{Prints}
use btor.Parser.{get_collected_length}
use btor.Torrent.Laws.{Torrent, IsTorrent, fields, metainfo_of, load_torrent-encode}
use btor.Torrent.{load_torrent, new_metainfo}

-- d8:announce10:http://t/a4:infod6:lengthi42e12:piece lengthi4eee
abbrev pub sample : Torrent
sample = record {
  before = field (codes "announce") (str (codes "http://t/a")) no_fields;
  info =
      field (codes "length") (int (pos 42)) (field (codes "piece length") (int (pos 4)) no_fields);
  behind = no_fields;
  announce = codes "http://t/a";
  piece_length = 4;
}

pub sample-IsTorrent : IsTorrent sample
unfolding btor.Parser.Info.HasNoInfo btor.Base.bytes_eq btor.Parser.Info.join
    btor.Memory.Lookup.field_of
sample-IsTorrent = record {
  none_before = (refl, tt, tt);
  none_inside = (refl, tt, (refl, tt, tt));
  none_behind = tt;
  announced = refl;
  pieced = refl;
  small = omega arith;
}

pub sample-Prints : Prints (dict (fields sample)) [] 0 new_world
unfolding encode btor.Bencode.encode_string btor.Bencode.encode_int btor.Base.Decimal.decimal
    btor.Base.Decimal.decimal_fuel btor.Base.Decimal.decimal_int btor.Parser.Info.join
    btor.Bencode.IsReadable total_length btor.Base.bytes_eq
sample-Prints = record {
  readable = (
    tt,
    (
      omega arith,
      refl,
      omega arith,
      (
        omega arith,
        refl,
        (tt, (omega arith, tt, omega arith, (omega arith, tt, omega arith, tt))),
        tt,
      ),
    ),
  );
  small = omega arith;
  collected = refl;
  room = omega arith;
}

-- A hash of five words, the same for every text, and some bytes.
abbrev pub five_words : Bytes → List ℕ
five_words text = 1 ∷ 0xabc ∷ 0 ∷ 0xffffffff ∷ 16 ∷ []

abbrev pub some_bytes : List ℕ → Bytes
some_bytes ws = codes "0123456789abcdefghij"

load_torrent-encode_example :
    (w' : World) × (load_torrent five_words some_bytes
        (encode (dict (fields sample)) ++ [])
        new_world
      ≡ ok (get_sha1 five_words some_bytes (metainfo_of sample 0), w'))
    × (get_collected_length w' ≡ pos (0 + total_length (dict (fields sample))))
load_torrent-encode_example =
    load_torrent-encode five_words some_bytes sample 0 new_world sample-IsTorrent sample-Prints refl
      refl

get_sha1-words_example :
    let m' = get_sha1 five_words some_bytes new_metainfo in
    (length m'.info_hash_hex ≡ 40)
    × (words 5 m'.info_hash_hex ≡ five_words new_metainfo.infodict)
    × (record m' {
      info_hash_hex = new_metainfo.info_hash_hex;
      info_hash_raw = new_metainfo.info_hash_raw;
    }
        ≡ new_metainfo)
get_sha1-words_example =
    get_sha1-words five_words some_bytes new_metainfo refl
      (omega arith, (omega arith, (omega arith, (omega arith, (omega arith, tt)))))

hash_test :
    take 16 (get_sha1 five_words some_bytes new_metainfo).info_hash_hex ≡ codes "0000000100000abc"
unfolding get_sha1 btor.Hash.hex_words btor.Hash.padded btor.Hash.hex btor.Hash.hex_fuel
hash_test = refl
