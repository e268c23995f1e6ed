-- ===== src/Parser/Took/Scalars.antt =====
-- `extractString` and `parseString`, by what they take from the text.
use btor.Base.{
  ℕ, zero, suc, ◌+◌, ◌-◌, ◌*◌, ◌^◌, ◌≡◌, ◌<◌, arith, refl, sym, ap, [], ◌∷◌, ◌++◌, ◌∙◌, inl, inr,
  append_assoc, append-nil,
}
use btor.Base.{Bytes, length, ltb, ltb→lt, ◌==◌, ==_iff, Bool-cases}
use btor.Base.Decimal.{is_digit, digits_value, AllDigits}
use btor.Base.Outcome.{ok}
use btor.Bencode.{Value, str, FitsString}
use btor.Cursor.{World, Cmd, consume_char}
use btor.Cursor.Sees.{Sees}
use btor.Memory.Build.{build, created}
use btor.Memory.{Memory, next}
use btor.Object.Dict.{Ptr}
use btor.Object.{of_string}
use btor.Parser.Spells.{Fits, SpellsString, counted, StartsDigit, Spells, a_string}
use btor.Parser.Took.{
  Reading, Took, Behind, Took-weaken, Took-here, Took-throw, Took-bind, Took-consume, Took-lift,
}
use btor.Parser.{append_digit, length_loop, read_loop, extract_string, parse_string}

pub append_digit-ok :
    (limit n c n' : ℕ) → append_digit limit n c ≡ ok n' → (n * 10 + (c - b'0') ≡ n') × (n' < limit)
append_digit-ok limit n c n' e = elim (Bool-cases (ltb (n * 10 + (c - b'0')) limit)) [
  | inl fits ↦
      let same : n * 10 + (c - b'0') ≡ n' = cc (rw fits at e) in
      (same, rw same at (ltb→lt _ _ fits))
  | inr big ↦ absurd (cc (rw big at e))
]

-- From the character `c` on, which has been taken before.
abbrev LengthRead : Memory → ℕ → ℕ → Reading ℕ
LengthRead m₀ c n len c' rest m =
    (ds : Bytes) × (c ∷ c' ≡ ds ++ b':' ∷ [])
    × AllDigits ds
    × (len ≡ digits_value n ds)
    × (len < 2 ^ 31)
    × (m ≡ m₀)

length_loop-Took :
    (f c n : ℕ) (s : Bytes) (w : World)
    → n < 2 ^ 31
    → Sees s w.parser
    → Took (LengthRead w.memory c n) s (length_loop f c n w)
unfolding length_loop digits_value
length_loop-Took zero c n s w low sees = unfold Took in tt
length_loop-Took (suc f) c n s w low sees = elim (Bool-cases (c == b':')) [
  | inl e ↦ rw e (
      Took-here (LengthRead w.memory c n) s n w sees
        ([], ap (λ (x : ℕ). x ∷ []) ((==_iff c b':').0 e), tt, refl, low, refl))
  | inr e ↦ elim (Bool-cases (is_digit c)) [
    | inr d ↦ rw (e, d) (Took-throw (LengthRead w.memory c n) s c w)
    | inl d ↦
        rw (e, d)
          (Took-lift (LengthRead w.memory c n) s w sees (append_digit _ n c) _ (λ n' at_n.
            Took-consume (LengthRead w.memory c n) s w sees _ (λ c' rest e' sees'.
              Took-weaken (LengthRead w.memory c' n') _ rest _
                (length_loop-Took f c' n' rest _ (append_digit-ok _ n c n' at_n).1 sees')
                (λ len c'' rest' m e'' (ds, spelt, digits, value, short, same). (
                  c ∷ ds,
                  ap (λ (x : Bytes). c ∷ x) spelt,
                  (d, digits),
                  value ∙ ap (λ (x : ℕ). digits_value x ds) (sym (append_digit-ok _ n c n' at_n).0),
                  short,
                  same,
                )))))
  ]
]

abbrev StringRead : Memory → ℕ → Bytes → Reading Bytes
StringRead m₀ k acc b c rest m = (length c ≡ k) × (b ≡ acc ++ c) × (m ≡ m₀)

read_loop-Took :
    (k : ℕ) (acc s : Bytes) (w : World)
    → Sees s w.parser
    → Took (StringRead w.memory k acc) s (read_loop k acc w)
unfolding read_loop
read_loop-Took zero acc s w sees =
    Took-here (StringRead w.memory 0 acc) s acc w sees (refl, sym (append-nil acc), refl)
read_loop-Took (suc k) acc s w sees =
    Took-consume (StringRead w.memory (suc k) acc) s w sees _ (λ ch rest e sees'.
      Took-weaken (StringRead w.memory k (acc ++ ch ∷ [])) _ rest _
        (read_loop-Took k (acc ++ ch ∷ []) rest _ sees')
        (λ b c rest' m e' (size, text, same).
          (ap suc size, text ∙ append_assoc acc (ch ∷ []) c, same)))

spelt_string :
    (ch len : ℕ) (c c' b ds : Bytes)
    → ch ∷ c ≡ ds ++ b':' ∷ []
    → AllDigits ds
    → len ≡ digits_value 0 ds
    → length c' ≡ len
    → b ≡ c'
    → SpellsString b (ch ∷ (c ++ c'))
spelt_string ch len c c' b ds spelt digits value size text =
    let whole : ch ∷ (c ++ c') ≡ ds ++ b':' ∷ b =
      ap (λ (x : Bytes). x ++ c') spelt
      ∙ append_assoc ds (b':' ∷ []) c'
      ∙ ap (λ (x : Bytes). ds ++ b':' ∷ x) (sym text) in
    rw whole (counted ds digits (sym value ∙ sym size ∙ ap length (sym text)))

abbrev pub TextRead : Memory → Reading Bytes
TextRead m₀ b c rest m = SpellsString b c × FitsString b × (m ≡ m₀)

pub extract_string-Took :
    (f : ℕ) (s : Bytes) (w : World)
    → Sees s w.parser
    → Took (TextRead w.memory) s (extract_string f w)
unfolding extract_string
extract_string-Took f s w sees = Took-consume (TextRead w.memory) s w sees _ (λ ch rest e sees'.
    Took-bind (LengthRead w.memory ch 0) _ rest _ _
      (length_loop-Took f ch 0 rest _ (omega arith) sees')
      (λ len c rest' w' e' sees'' (ds, spelt, digits, value, short, same).
        Took-weaken (StringRead w'.memory len []) _ rest' _ (read_loop-Took len [] rest' w' sees'')
          (λ b c' rest'' m e'' (size, text, same'). (
            spelt_string ch len c c' b ds spelt digits value size text,
            rw (text, size) short,
            same' ∙ same,
          ))))

-- What a value's characters have made: the objects of the value, behind those that were there.
abbrev pub Made : Memory → Reading Ptr
Made m₀ p c rest m = (v : Value) × Spells v c × Fits v × (p ≡ next m₀) × (m ≡ build v m₀)

StartsDigit-append :
    (c rest : Bytes) {b : Bytes} → StartsDigit (c ++ rest) → SpellsString b c → StartsDigit c
StartsDigit-append c rest starts (counted [] digits size) = starts
StartsDigit-append c rest starts (counted (d ∷ ds) digits size) = digits.0

pub parse_string-Took :
    (f : ℕ) (s : Bytes) (w : World)
    → StartsDigit s
    → Sees s w.parser
    → Took (Made w.memory) s (parse_string f w)
unfolding parse_string build Fits btor.Cursor.alloc btor.Memory.get_new_bobject
parse_string-Took f s w starts sees =
    Took-bind (TextRead w.memory) (Made w.memory) s _ _ (extract_string-Took f s w sees)
      (λ b c rest w' e sees' (spelt, fits, same).
        Took-here (Behind c (Made w.memory)) rest (next w'.memory) _ sees' (
          str b,
          rw append-nil (a_string (StartsDigit-append c rest (rw e at starts) spelt) spelt),
          fits,
          ap next same,
          ap (created (of_string b)) same,
        ))
