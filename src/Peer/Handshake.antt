-- ===== src/Peer/Handshake.antt =====
-- The handshake that `getHandshake` builds, and the assertion of btor/btor.cpp on its size.
use btor.Announce.{generate_id}
use btor.Announce.PeerId.{generate_id-digits}
use btor.Base.{ℕ, ◌≤◌, ◌≡◌, sym, some, List, ◌++◌, arith}
use btor.Base.{Bytes, length, length-append, take, drop, take-append, drop-append}
use btor.Metainfo.{BState}
use btor.Peer.{get_handshake}

take_at : (n : ℕ) (xs ys : Bytes) → length xs ≡ n → take n (xs ++ ys) ≡ xs
take_at n xs ys e = rw (sym e) (take-append xs ys)

drop_at : (n : ℕ) (xs ys : Bytes) → length xs ≡ n → drop n (xs ++ ys) ≡ ys
drop_at n xs ys e = rw (sym e) (drop-append xs ys)

id_size :
    (rands : List ℕ) (id : Bytes) → 12 ≤ length rands → generate_id rands ≡ some id → length id ≡ 20
id_size rands id enough own =
    let (id', e, _, size) = generate_id-digits rands enough in
    let same : id ≡ id' = cc (own, e) in rw same size

-- With a raw hash of 20 bytes and a client's id that `generateId` made from at least twelve numbers,
-- the handshake has the 68 characters that the program asserts; behind the first 28 stand the hash
-- and then the id, and nothing else.
pub get_handshake-generate_id :
    (state : BState) (rands : List ℕ)
    → length state.metainfo.info_hash_raw ≡ 20
    → 12 ≤ length rands
    → generate_id rands ≡ some state.unique_id
    → (length (get_handshake state) ≡ 68)
      × (take 20 (drop 28 (get_handshake state)) ≡ state.metainfo.info_hash_raw)
      × (drop 48 (get_handshake state) ≡ state.unique_id)
unfolding get_handshake
get_handshake-generate_id state rands raw enough own =
    let hash = state.metainfo.info_hash_raw in
    let id = state.unique_id in
    (
      omega (arith, length-append hash id, id_size rands id enough own),
      take_at 20 hash id raw,
      drop_at 20 hash id raw,
    )
