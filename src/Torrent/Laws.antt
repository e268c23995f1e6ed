-- ===== src/Torrent/Laws.antt =====
-- A well-formed torrent file is read as its fields say.
use btor.Base.{ℕ, ◌+◌, ◌%◌, ◌<◌, ◌^◌, ◌≡◌, refl, false, some, List, [], ◌++◌, arith}
use btor.Base.{Bytes, codes, bytes_eq}
use btor.Base.Int.{ℤ, pos}
use btor.Base.Outcome.{ok}
use btor.Bencode.{Value, Fields, int, str, dict, field, no_fields, encode, total_length}
use btor.Cursor.{World}
use btor.Hash.{get_sha1}
use btor.Memory.Denotes.{Denotes}
use btor.Memory.Lookup.{field_of, read-int, read-string, read-field}
use btor.Memory.{Memory, next}
use btor.Metainfo.{Metainfo}
use btor.Object.Dict.{Ptr}
use btor.Parser.Info.{HasNoInfo, FieldsNoInfo, join}
use btor.Parser.Results.{Prints, parse_bencoded_string-encode, parse_bencoded_string-info}
use btor.Parser.{get_collected_info_dict, get_collected_length}
use btor.Torrent.{int_under, string_under, new_metainfo, read_metainfo, load_torrent}

module _ (m : Memory) (low : ℕ) (p : Ptr) (fs : Fields) (made : Denotes m low p (dict fs))
    (k : Bytes) where
  pub int_under-Denotes : (i : ℤ) → field_of k fs ≡ some (int i) → int_under k p m ≡ ok i
  unfolding int_under
  int_under-Denotes i e =
      let (q, at_q, here) = read-field m low p fs k (int i) made e in
      rw at_q (read-int m low q i here)

  pub string_under-Denotes : (b : Bytes) → field_of k fs ≡ some (str b) → string_under k p m ≡ ok b
  unfolding string_under
  string_under-Denotes b e =
      let (q, at_q, here) = read-field m low p fs k (str b) made e in
      rw at_q ((read-string m low q b here).0)

field_of-join :
    (before : Fields) (v : Value) (behind : Fields)
    → FieldsNoInfo before
    → field_of (codes "info") (join before (field (codes "info") v behind)) ≡ some v
unfolding field_of join FieldsNoInfo bytes_eq
field_of-join no_fields v behind h = refl
field_of-join (field k u fs) v behind h = rw h.0 (field_of-join fs v behind h.2)

-- A torrent: what stands before, in and behind the info dictionary, and two of its fields.
pub record Torrent : Type 0 where
  pub before : Fields
  pub info : Fields
  pub behind : Fields
  pub announce : Bytes
  pub piece_length : ℕ

abbrev pub fields : Torrent → Fields
fields t = join t.before (field (codes "info") (dict t.info) t.behind)

-- There is one key "info", and the two fields stand where they belong.
pub record IsTorrent (t : Torrent) : Type 0 where
  pub none_before : FieldsNoInfo t.before
  pub none_inside : HasNoInfo (dict t.info)
  pub none_behind : FieldsNoInfo t.behind
  pub announced : field_of (codes "announce") (fields t) ≡ some (str t.announce)
  pub pieced : field_of (codes "piece length") t.info ≡ some (int (pos t.piece_length))
  pub small : t.piece_length < 2 ^ 63

-- The metainfo that is meant.
abbrev pub metainfo_of : Torrent → ℕ → Metainfo
metainfo_of t n = record new_metainfo {
  announce = t.announce;
  infodict = encode (dict t.info);
  total_length = pos (n + total_length (dict (fields t)));
  piece_length = t.piece_length;
}

read_metainfo-Denotes :
    (sha1 : Bytes → List ℕ) (vector_bytes : List ℕ → Bytes) (t : Torrent) (low : ℕ) (p : Ptr)
    (w : World) (n : ℕ)
    → IsTorrent t
    → Denotes w.memory low p (dict (fields t))
    → get_collected_info_dict w ≡ encode (dict t.info)
    → get_collected_length w ≡ pos (n + total_length (dict (fields t)))
    → read_metainfo sha1 vector_bytes p w ≡ ok (get_sha1 sha1 vector_bytes (metainfo_of t n))
unfolding read_metainfo
read_metainfo-Denotes sha1 vector_bytes t low p w n h made info len =
    let (q, at_q, inside) =
      read-field w.memory low p (fields t) (codes "info") (dict t.info) made
        (field_of-join t.before (dict t.info) t.behind h.none_before) in
    let piece =
      int_under-Denotes w.memory low q t.info inside (codes "piece length") (pos t.piece_length)
        h.pieced in
    let announce =
      string_under-Denotes w.memory low p (fields t) made (codes "announce") t.announce
        h.announced in
    let whole : t.piece_length % 2 ^ 64 ≡ t.piece_length = omega (arith, h.small) in
    rw (at_q, piece, announce, info, len, whole)

-- From the print of a torrent, read by a parser that has collected nothing of an info dictionary,
-- the program fills its metainfo with the announce URL, the piece length, the sum of the lengths,
-- the exact text of the info dictionary, and the hash of that text.
pub load_torrent-encode :
    (sha1 : Bytes → List ℕ) (vector_bytes : List ℕ → Bytes) (t : Torrent) (n : ℕ) (w : World)
    → IsTorrent t
    → Prints (dict (fields t)) [] n w
    → w.parser.collect_info_dict ≡ false
    → w.parser.collected_info_dict ≡ []
    → (w' : World) × (load_torrent sha1 vector_bytes (encode (dict (fields t)) ++ []) w
        ≡ ok (get_sha1 sha1 vector_bytes (metainfo_of t n), w'))
      × (get_collected_length w' ≡ pos (n + total_length (dict (fields t))))
unfolding load_torrent
load_torrent-encode sha1 vector_bytes t n w h printed off empty =
    let (w', runs, made, _, len) = parse_bencoded_string-encode (dict (fields t)) [] n w printed in
    let (p, w₂, runs₂, info) =
      parse_bencoded_string-info t.before (dict t.info) t.behind [] n w h.none_before h.none_inside
        h.none_behind printed off empty in
    let same : w₂ ≡ w' = cc (runs, runs₂) in
    let info' : get_collected_info_dict w' ≡ encode (dict t.info) = rw same at info in
    (
      w',
      rw (
        runs,
        read_metainfo-Denotes sha1 vector_bytes t (next w.memory) (next w.memory) w' n h made info'
            len,
      ),
      len,
    )
