-- ===== src/Hash.antt =====
-- `getSHA1` of btor/butils.cpp. The SHA-1 library is an argument: the five words that it gives for a
-- text. So are the first twenty bytes of the vector object that holds them: the raw hash is copied
-- from there, and not from the words. They are the vector's own members, pointers among them, and
-- differ from process to process: what is said of two runs takes two such functions.
pub mod Hex
use btor.Base.{ℕ, zero, suc, ◌+◌, ◌-◌, ◌/◌, ◌%◌, List, [], ◌∷◌, ◌++◌}
use btor.Base.{Bytes, length, replicate, ltb, if◌then◌else◌}
use btor.Metainfo.{Metainfo}

-- A digit as `std::hex` writes it.
abbrev pub hex_digit : ℕ → ℕ
hex_digit d = if ltb d 10 then b'0' + d else b'a' + (d - 10)

-- The digits of a number, the lowest last; more fuel than the number always suffices.
unfoldable pub hex_fuel : ℕ → ℕ → Bytes
hex_fuel zero n = []
hex_fuel (suc f) n =
    let more = hex_fuel f (n / 16) ++ hex_digit (n % 16) ∷ [] in
    if ltb n 16 then hex_digit n ∷ [] else more

unfoldable pub hex : ℕ → Bytes
unfolding hex_fuel
hex n = hex_fuel (suc n) n

-- `std::setfill('0') << std::setw(8)`
unfoldable pub padded : Bytes → Bytes
padded text = replicate (8 - length text) b'0' ++ text

-- The loop over the words.
unfoldable pub hex_words : List ℕ → Bytes
unfolding padded hex
hex_words [] = []
hex_words (w ∷ ws) = padded (hex w) ++ hex_words ws

unfoldable pub get_sha1 : (Bytes → List ℕ) → (List ℕ → Bytes) → Metainfo → Metainfo
unfolding hex_words
get_sha1 sha1 vector_bytes metainfo =
    let res = sha1 metainfo.infodict in
    record metainfo { info_hash_hex = hex_words res; info_hash_raw = vector_bytes res }
