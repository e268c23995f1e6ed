-- ===== src/Hash/Hex.antt =====
-- The hexadecimal text of the hash holds the hash.
use btor.Base.{
  ℕ, zero, suc, ◌+◌, ◌-◌, ◌*◌, ◌/◌, ◌%◌, ◌^◌, ◌≤◌, ◌<◌, ◌≡◌, refl, List, [], ◌∷◌, ◌++◌, ◌∙◌, inl,
  inr, arith, sym,
}
use btor.Base.{
  Bytes, length, replicate, length-replicate, length-append, take, drop, take-append, drop-append,
  lt→ltb, ltb, ltb→lt, if◌then◌else◌, Bool-cases,
}
use btor.Hash.{hex_digit, hex_fuel, hex, padded, hex_words, get_sha1}
use btor.Metainfo.{Metainfo}

-- What a hexadecimal digit stands for.
abbrev pub digit_value : ℕ → ℕ
digit_value c = if ltb c b'a' then c - b'0' else c - b'a' + 10

-- The number read on from `acc`.
unfoldable pub hex_value : ℕ → Bytes → ℕ
hex_value acc [] = acc
hex_value acc (c ∷ cs) = hex_value (acc * 16 + digit_value c) cs

digit_value-hex_digit : (d : ℕ) → d < 16 → digit_value (hex_digit d) ≡ d
digit_value-hex_digit d h = ground arith

hex_value-append :
    (acc : ℕ) (xs ys : Bytes) → hex_value acc (xs ++ ys) ≡ hex_value (hex_value acc xs) ys
unfolding hex_value
hex_value-append acc [] ys = refl
hex_value-append acc (x ∷ xs) ys = hex_value-append (acc * 16 + digit_value x) xs ys

hex_fuel_value : (f n : ℕ) → n < f → hex_value 0 (hex_fuel f n) ≡ n
unfolding hex_fuel hex_value
hex_fuel_value zero n h = absurd (omega arith)
hex_fuel_value (suc f) n h = elim (Bool-cases (ltb n 16)) [
  | inl e ↦ rw e (omega (arith, digit_value-hex_digit n (ltb→lt n 16 e)))
  | inr e ↦
      let front = hex_fuel_value f (n / 16) (ground arith) in
      let last = digit_value-hex_digit (n % 16) (omega arith) in
      rw e (
        hex_value-append 0 (hex_fuel f (n / 16)) (hex_digit (n % 16) ∷ [])
        ∙ omega (arith, front, last))
]

zeros_value : (k : ℕ) (s : Bytes) → hex_value 0 (replicate k b'0' ++ s) ≡ hex_value 0 s
unfolding hex_value
zeros_value zero s = refl
zeros_value (suc k) s = zeros_value k s

-- 16 ^ k
abbrev pow16 : ℕ → ℕ
pow16 zero = 1
pow16 (suc k) = 16 * pow16 k

length-hex_fuel : (f n k : ℕ) → n < pow16 (suc k) → length (hex_fuel f n) ≤ suc k
unfolding hex_fuel
length-hex_fuel zero n k h = omega arith
length-hex_fuel (suc f) n zero h = rw (lt→ltb n 16 (omega arith)) (omega arith)
length-hex_fuel (suc f) n (suc k) h = elim (Bool-cases (ltb n 16)) [
  | inl e ↦ rw e (omega arith)
  | inr e ↦ rw e (
      omega (
        arith,
        length-append (hex_fuel f (n / 16)) (hex_digit (n % 16) ∷ []),
        length-hex_fuel f (n / 16) k (omega arith),
      ))
]

module _ (w : ℕ) (small : w < 2 ^ 32) where
  hex_short : length (hex w) ≤ 8
  unfolding hex
  hex_short = length-hex_fuel (suc w) w 7 small

  length-padded : length (padded (hex w)) ≡ 8
  unfolding padded
  length-padded = omega (
    arith,
    length-append (replicate (8 - length (hex w)) b'0') (hex w),
    length-replicate {A = ℕ} (8 - length (hex w)) b'0',
    hex_short,
  )

  hex_value-padded : hex_value 0 (padded (hex w)) ≡ w
  unfolding padded hex
  hex_value-padded =
      zeros_value (8 - length (hex w)) (hex w) ∙ hex_fuel_value (suc w) w (omega arith)

-- The words that a text of eight digits each stands for.
unfoldable pub words : ℕ → Bytes → List ℕ
words zero text = []
words (suc n) text = hex_value 0 (take 8 text) ∷ words n (drop 8 text)

abbrev pub AllWords : List ℕ → Type 0
AllWords [] = Unit {0}
AllWords (w ∷ ws) = (w < 2 ^ 32) × AllWords ws

front :
    (n : ℕ) (xs ys : Bytes) → length xs ≡ n → (take n (xs ++ ys) ≡ xs) × (drop n (xs ++ ys) ≡ ys)
front n xs ys e = (rw (sym e) (take-append xs ys), rw (sym e) (drop-append xs ys))

words-hex_words : (ws : List ℕ) → AllWords ws → words (length ws) (hex_words ws) ≡ ws
unfolding words hex_words
words-hex_words [] h = refl
words-hex_words (w ∷ ws) h =
    let (first, others) = front 8 (padded (hex w)) (hex_words ws) (length-padded w h.0) in
    rw (first, others, hex_value-padded w h.0, words-hex_words ws h.1)

length-hex_words : (ws : List ℕ) → AllWords ws → length (hex_words ws) ≡ 8 * length ws
unfolding hex_words
length-hex_words [] h = refl
length-hex_words (w ∷ ws) h = omega (
  arith,
  length-append (padded (hex w)) (hex_words ws),
  length-padded w h.0,
  length-hex_words ws h.1,
)

-- Where SHA-1 gives five words of 32 bits, `getSHA1` stores their text of 40 hexadecimal digits, which
-- reads back as the words in their order, leading zeros included; nothing else of the metainfo but
-- the raw hash changes.
pub get_sha1-words :
    (sha1 : Bytes → List ℕ) (vector_bytes : List ℕ → Bytes) (m : Metainfo)
    → length (sha1 m.infodict) ≡ 5
    → AllWords (sha1 m.infodict)
    → let m' = get_sha1 sha1 vector_bytes m in
      (length m'.info_hash_hex ≡ 40)
      × (words 5 m'.info_hash_hex ≡ sha1 m.infodict)
      × (record m' { info_hash_hex = m.info_hash_hex; info_hash_raw = m.info_hash_raw } ≡ m)
unfolding get_sha1
get_sha1-words sha1 vector_bytes m five all = (
  omega (arith, length-hex_words (sha1 m.infodict) all),
  rw (sym five) (words-hex_words (sha1 m.infodict) all),
  refl,
)
