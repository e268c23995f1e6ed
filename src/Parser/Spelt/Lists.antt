-- ===== src/Parser/Spelt/Lists.antt =====
-- A list around what its loop reads, and a round of the loop around what is read in it.
use btor.Base.{ℕ, suc, ◌+◌, ◌^◌, ◌<◌, ◌≡◌, refl, ap, false, [], ◌∷◌, ◌++◌, ◌∙◌, arith}
use btor.Base.{Bytes, ◌==◌}
use btor.Base.Int.{pos}
use btor.Bencode.{Value, Items, list, no_items, item, total_length, total_items}
use btor.Cursor.Sees.{Sees-advance, eat}
use btor.Cursor.{World}
use btor.Memory.Amend.{Open, Open-amend}
use btor.Memory.Build.{build, build_items, created, pushed, Open-build}
use btor.Memory.{next}
use btor.Object.Dict.{Ptr}
use btor.Object.{b_list, of_kind}
use btor.Parser.Lengths.{Collected-advance}
use btor.Parser.Reads.{Ready, opened, pushed_in, list_loop-item, read_list}
use btor.Parser.Spelt.Values.{Reads}
use btor.Parser.{parse_arbitrary, list_loop}

-- A container around what its loop reads.
pub spelt_list :
    (xs : Items) (c rest : Bytes) (f n : ℕ) (w : World)
    → Ready (b'l' ∷ (c ++ b'e' ∷ [])) rest (total_items xs) n w
    → Reads
        (list_loop f (next w.memory) (opened b'l' (of_kind b_list) w))
        tt
        (build_items xs (next w.memory) (created (of_kind b_list) w.memory))
        (b'e' ∷ rest)
        (n + total_items xs)
    → Reads
        (parse_arbitrary (suc (suc f)) w)
        (next w.memory)
        (build (list xs) w.memory)
        rest
        (n + total_items xs)
unfolding build
spelt_list xs c rest f n w r inner = record {
  after = eat (b'e' ∷ []) inner.after;
  returns = read_list f w inner.after inner.sees r.sees inner.returns;
  same = inner.same;
  sees = Sees-advance (b'e' ∷ []) inner.sees;
  collected = Collected-advance (b'e' ∷ []) inner.after.parser inner.collected;
}

-- The first round of a loop over a list, where it is the last and where it is not.
module _ (v : Value) (p : Ptr) (f n : ℕ) (rest : Bytes) (w : World)
    (here : Open b_list p w.memory) where
  pub last_item :
      Reads
        (parse_arbitrary f w)
        (next w.memory)
        (build v w.memory)
        (b'e' ∷ rest)
        (n + total_length v)
      → Reads
          (list_loop (suc f) p w)
          tt
          (build_items (item v no_items) p w.memory)
          (b'e' ∷ rest)
          (n + total_items (item v no_items))
  unfolding build total_length
  last_item first = record {
    after = pushed_in (next w.memory) p first.after;
    returns = list_loop-item f p v b'e' rest w first.after here first.returns first.same first.sees;
    same = rw first.same refl;
    sees = first.sees;
    collected = first.collected ∙ ap pos (omega arith);
  }

  pub further_item :
      (xs : Items) (c : ℕ) (cs d : Bytes)
      → d ≡ c ∷ cs
      → (c == b'e') ≡ false
      → Reads
          (parse_arbitrary f w)
          (next w.memory)
          (build v w.memory)
          (d ++ b'e' ∷ rest)
          (n + total_length v)
      → ((w' : World)
          → Open b_list p w'.memory
          → Ready d (b'e' ∷ rest) (total_items xs) (n + total_length v) w'
          → Reads
              (list_loop f p w')
              tt
              (build_items xs p w'.memory)
              (b'e' ∷ rest)
              (n + total_length v + total_items xs))
      → n + total_items (item v xs) < 2 ^ 63
      → Reads
          (list_loop (suc f) p w)
          tt
          (build_items (item v xs) p w.memory)
          (b'e' ∷ rest)
          (n + total_items (item v xs))
  unfolding build total_length
  further_item xs c cs d e ne first others small =
      let w' = pushed_in (next w.memory) p first.after in
      let here' : Open b_list p w'.memory =
        Open-amend (rw first.same (Open-build v here)) (pushed (next w.memory)) (λ o. refl) in
      let inner =
        others w' here' (record {
          sees = first.sees;
          collected = first.collected;
          small = omega (arith, small);
        }) in
      record {
        after = inner.after;
        returns =
            list_loop-item f p v c (cs ++ b'e' ∷ rest) w first.after here first.returns first.same
              (rw e at first.sees)
            ∙ rw ne inner.returns;
        same = inner.same ∙ rw first.same refl;
        sees = inner.sees;
        collected = inner.collected ∙ ap pos (omega arith);
      }
