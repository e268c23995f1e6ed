-- ===== src/Parser/Spelt/Dictionaries.antt =====
-- A dictionary around what its loop reads, and a round of the loop around what is read in it.
use btor.Base.{ℕ, suc, ◌+◌, ◌^◌, ◌<◌, ◌≡◌, refl, ap, false, [], ◌∷◌, ◌++◌, ◌∙◌, arith}
use btor.Base.{Bytes, ◌==◌}
use btor.Base.Int.{pos}
use btor.Base.Outcome.{ok}
use btor.Bencode.{
  Value, Fields, dict, no_fields, field, own_length, FitsLength, total_length, total_fields,
}
use btor.Cursor.Sees.{Sees-advance, eat}
use btor.Cursor.{World}
use btor.Memory.Amend.{Open, Open-amend}
use btor.Memory.Build.{build, build_fields, created, added, Open-build}
use btor.Memory.{next}
use btor.Object.Dict.{Ptr}
use btor.Object.{b_dict, of_kind}
use btor.Parser.Lengths.{Collected-advance, Collected-settle}
use btor.Parser.Reads.{Ready, opened, added_in, marked, dictionary_loop-field, read_dictionary}
use btor.Parser.Scan.{Sees-settle}
use btor.Parser.Spelt.Values.{Reads}
use btor.Parser.{parse_arbitrary, dictionary_loop, extract_string}

-- A container around what its loop reads.
pub spelt_dictionary :
    (fs : Fields) (c rest : Bytes) (f n : ℕ) (w : World)
    → Ready (b'd' ∷ (c ++ b'e' ∷ [])) rest (total_fields fs) n w
    → Reads
        (dictionary_loop f (next w.memory) (opened b'd' (of_kind b_dict) w))
        tt
        (build_fields fs (next w.memory) (created (of_kind b_dict) w.memory))
        (b'e' ∷ rest)
        (n + total_fields fs)
    → Reads
        (parse_arbitrary (suc (suc f)) w)
        (next w.memory)
        (build (dict fs) w.memory)
        rest
        (n + total_fields fs)
unfolding build
spelt_dictionary fs c rest f n w r inner = record {
  after = eat (b'e' ∷ []) inner.after;
  returns = read_dictionary f w inner.after inner.sees r.sees inner.returns;
  same = inner.same;
  sees = Sees-advance (b'e' ∷ []) inner.sees;
  collected = Collected-advance (b'e' ∷ []) inner.after.parser inner.collected;
}

-- A round of the loop over a dictionary, where the key has been read.
module _ (k : Bytes) (v : Value) (p : Ptr) (f n : ℕ) (rest : Bytes) (w wk : World)
    (here : Open b_dict p w.memory) (own : FitsLength k v)
    (key : extract_string f w ≡ ok (k, wk)) where
  pub last_field :
      Reads
        (parse_arbitrary f (marked k wk))
        (next w.memory)
        (build v w.memory)
        (b'e' ∷ rest)
        (n + total_length v)
      → n + total_fields (field k v no_fields) < 2 ^ 63
      → Reads
          (dictionary_loop (suc f) p w)
          tt
          (build_fields (field k v no_fields) p w.memory)
          (b'e' ∷ rest)
          (n + total_fields (field k v no_fields))
  unfolding build total_length
  last_field first small = record {
    after = added_in k v (next w.memory) p first.after;
    returns =
        dictionary_loop-field f p k v b'e' (n + total_length v) rest w wk first.after here own key
          first.returns first.same first.collected (omega (arith, small)) first.sees;
    same = rw first.same refl;
    sees = Sees-settle k v first.sees;
    collected =
        Collected-settle k v (n + total_length v) first.after.parser first.collected
        ∙ ap pos (omega arith);
  }

  pub further_field :
      (fs : Fields) (c : ℕ) (cs d : Bytes)
      → d ≡ c ∷ cs
      → (c == b'e') ≡ false
      → Reads
          (parse_arbitrary f (marked k wk))
          (next w.memory)
          (build v w.memory)
          (d ++ b'e' ∷ rest)
          (n + total_length v)
      → ((w' : World)
          → Open b_dict p w'.memory
          → Ready d (b'e' ∷ rest) (total_fields fs) (n + total_length v + own_length k v) w'
          → Reads
              (dictionary_loop f p w')
              tt
              (build_fields fs p w'.memory)
              (b'e' ∷ rest)
              (n + total_length v + own_length k v + total_fields fs))
      → n + total_fields (field k v fs) < 2 ^ 63
      → Reads
          (dictionary_loop (suc f) p w)
          tt
          (build_fields (field k v fs) p w.memory)
          (b'e' ∷ rest)
          (n + total_fields (field k v fs))
  unfolding build total_length
  further_field fs c cs d e ne first others small =
      let w' = added_in k v (next w.memory) p first.after in
      let here' : Open b_dict p w'.memory =
        Open-amend (rw first.same (Open-build v here)) (added k (next w.memory)) (λ o. refl) in
      let ready : Ready d (b'e' ∷ rest) (total_fields fs) (n + total_length v + own_length k v) w' =
        record {
          sees = Sees-settle k v first.sees;
          collected = Collected-settle k v (n + total_length v) first.after.parser first.collected;
          small = omega (arith, small);
        } in
      let inner = others w' here' ready in
      record {
        after = inner.after;
        returns =
            dictionary_loop-field f p k v c (n + total_length v) (cs ++ b'e' ∷ rest) w wk
              first.after here own key first.returns first.same first.collected
              (omega (arith, small)) (rw e at first.sees)
            ∙ rw ne inner.returns;
        same = inner.same ∙ rw first.same refl;
        sees = inner.sees;
        collected = inner.collected ∙ ap pos (omega arith);
      }
