-- ===== src/Announce/Encode.antt =====
-- `urlEncode`: a percent sign before every two characters.
use btor.Base.{ℕ, ◌+◌, ◌%◌, ◌^◌, ◌≡◌, refl, ap, [], ◌∷◌, arith}
use btor.Base.{Bytes}
use btor.Announce.{encode_from, url_encode}

-- The text that is meant: each two characters stand for a byte.
unfoldable pub percent : Bytes → Bytes
percent [] = []
percent (a ∷ []) = b'%' ∷ a ∷ []
percent (a ∷ b ∷ rest) = b'%' ∷ a ∷ b ∷ percent rest

-- The reading of such a text.
unfoldable pub decode : Bytes → Bytes
decode [] = []
decode (p ∷ []) = []
decode (p ∷ a ∷ []) = a ∷ []
decode (p ∷ a ∷ b ∷ rest) = a ∷ b ∷ decode rest

encode_from-percent : (s : Bytes) (i : ℕ) → i % 2 ≡ 0 → encode_from i s ≡ percent s
unfolding encode_from percent
encode_from-percent [] i h = refl
encode_from-percent (a ∷ []) i h = ground arith
encode_from-percent (a ∷ b ∷ rest) i h =
    ground (arith, encode_from-percent rest (((i + 1) % 2 ^ 32 + 1) % 2 ^ 32) (omega arith))

decode-percent : (s : Bytes) → decode (percent s) ≡ s
unfolding percent decode
decode-percent [] = refl
decode-percent (a ∷ []) = refl
decode-percent (a ∷ b ∷ rest) = ap (λ t. a ∷ b ∷ t) (decode-percent rest)

-- `urlEncode` puts a percent sign before every two characters of any text, also past the 2^32
-- characters that its counter can count, and so loses nothing of it.
pub url_encode-percent : (s : Bytes) → (url_encode s ≡ percent s) × (decode (url_encode s) ≡ s)
unfolding url_encode
url_encode-percent s = let e = encode_from-percent s 0 (omega arith) in (e, rw e (decode-percent s))
