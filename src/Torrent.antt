-- ===== src/Torrent.antt =====
-- What `main` of btor/btor.cpp reads from the torrent file.
pub mod Laws
use btor.Base.{ℕ, List, []}
use btor.Base.{Bytes, codes}
use btor.Base.Int.{ℤ, pos}
use btor.Base.Outcome.{Outcome, ok, bind}
use btor.Cursor.{World, Cmd, ◌>>=◌}
use btor.Hash.{get_sha1}
use btor.Memory.Lookup.{read}
use btor.Memory.{Memory}
use btor.Metainfo.{Metainfo, to_uint64}
use btor.Object.Dict.{Ptr}
use btor.Object.{get_by_key, get_int, get_string}
use btor.Parser.{parse_bencoded_string, get_collected_info_dict, get_collected_length}

-- `*p->getByKey(key)->getInt()` and `*p->getByKey(key)->getString()`
unfoldable pub int_under : Bytes → Ptr → Memory → Outcome ℤ
int_under key p m = bind (read p (get_by_key key) m) λ q. read q get_int m

unfoldable pub string_under : Bytes → Ptr → Memory → Outcome Bytes
string_under key p m = bind (read p (get_by_key key) m) λ q. read q get_string m

-- `Metainfo metainfo;`: its two numbers are indeterminate, and are filled before they are read.
abbrev pub new_metainfo : Metainfo
new_metainfo = record {
  announce = [];
  infodict = [];
  info_hash_hex = [];
  info_hash_raw = [];
  fileinfo = [];
  total_length = pos 0;
  piece_length = 0;
  pieces = [];
}

-- The fields that `main` fills, and then the hash; `sha1` and `vector_bytes` are those of `get_sha1`.
unfoldable pub read_metainfo : (Bytes → List ℕ) → (List ℕ → Bytes) → Ptr → World → Outcome Metainfo
read_metainfo sha1 vector_bytes root w =
    bind (read root (get_by_key (codes "info")) w.memory) λ info.
      bind (int_under (codes "piece length") info w.memory) λ piece_length.
        bind (string_under (codes "announce") root w.memory) λ announce. ok (
          get_sha1 sha1 vector_bytes (record new_metainfo {
            infodict = get_collected_info_dict w;
            total_length = get_collected_length w;
            piece_length = to_uint64 piece_length;
            announce = announce;
          }))

unfoldable pub load_torrent : (Bytes → List ℕ) → (List ℕ → Bytes) → Bytes → Cmd Metainfo
load_torrent sha1 vector_bytes file_buf = do
  root ← parse_bencoded_string file_buf
  λ w. bind (read_metainfo sha1 vector_bytes root w) λ metainfo. ok (metainfo, w)
