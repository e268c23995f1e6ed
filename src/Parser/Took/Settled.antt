-- ===== src/Parser/Took/Settled.antt =====
-- The tests after a value of a dictionary, by what they take from the text.
use btor.Base.{◌≡◌, refl, sym, [], inl, inr}
use btor.Base.{Bytes, Bool-cases}
use btor.Base.Int.{ℤ, ◌+ℤ◌}
use btor.Base.Outcome
use btor.Base.Outcome.{Outcome, ok, raised, exited, aborted, undefined, out_of_fuel}
use btor.Cursor.Sees.{Sees}
use btor.Cursor.{World, Cmd, query}
use btor.Memory.{Memory, deref}
use btor.Object.Dict.{Ptr}
use btor.Object.{BObject, get_int}
use btor.Parser.Took.{Reading, Took, Took-bind, Took-here}
use btor.Parser.{is_info, is_length, add_length, fits_int64, after_value}

abbrev Stays : {A : Type 0} → Memory → Reading A
Stays m₀ a c rest m = (c ≡ []) × (m ≡ m₀)

Took-outcome :
    {A B : Type 0} (Q : Reading B) (s : Bytes) (r : Outcome A) (k : A → Outcome (B × World))
    → ((a : A) → Took Q s (k a))
    → Took Q s (Outcome.bind r k)
Took-outcome Q s (ok a) k h = h a
Took-outcome Q s (raised x) k h = unfold Took in tt
Took-outcome Q s (exited n) k h = unfold Took in tt
Took-outcome Q s aborted k h = unfold Took in tt
Took-outcome Q s undefined k h = unfold Took in tt
Took-outcome Q s out_of_fuel k h = unfold Took in tt

module _ (s : Bytes) (w : World) (sees : Sees s w.parser) where
  query-Stays :
      {A : Type 0} (p : Ptr) (f : BObject → Outcome A) → Took (Stays w.memory) s (query p f w)
  unfolding query
  query-Stays p f = Took-outcome (Stays w.memory) s (deref p w.memory) _ (λ o.
      Took-outcome (Stays w.memory) s (f o) _
        (λ a. Took-here (Stays w.memory) s a w sees (refl, refl)))

  add_length-Stays : (n : ℤ) → Took (Stays w.memory) s (add_length n w)
  unfolding add_length
  add_length-Stays n = elim (Bool-cases (fits_int64 (w.parser.collected_length +ℤ n))) [
    | inl e ↦ rw e (
        Took-here (Stays w.memory) s tt _ (record { ahead = sees.ahead; small = sees.small })
          (refl, refl))
    | inr e ↦ rw e (unfold Took in tt)
  ]

after_value-Stays :
    (s k : Bytes) (q : Ptr) (w : World)
    → Sees s w.parser
    → Took (Stays w.memory) s (after_value k q w)
unfolding after_value
after_value-Stays s k q w sees = elim (Bool-cases (is_info k)) [
  | inl e ↦ rw e (
      Took-here (Stays w.memory) s tt _ (record { ahead = sees.ahead; small = sees.small })
        (refl, refl))
  | inr e ↦ elim (Bool-cases (is_length k)) [
    | inr e' ↦ rw (e, e') (Took-here (Stays w.memory) s tt w sees (refl, refl))
    | inl e' ↦
        rw (e, e')
          (Took-bind (Stays w.memory) (Stays w.memory) s _ _ (query-Stays s w sees q get_int)
            (λ n c rest w' at_rest sees' (none_taken, same).
              rw (none_taken, sym same) (add_length-Stays rest w' sees' n)))
  ]
]

-- The sequence that begins with these tests.
pub Took-after_value :
    {B : Type 0} (Q : Reading B) (s k : Bytes) (q : Ptr) (w : World) (f : Unit {0} → Cmd B)
    → Sees s w.parser
    → ((w' : World) → Sees s w'.parser → w'.memory ≡ w.memory → Took Q s (f tt w'))
    → Took Q s (Outcome.bind (after_value k q w) λ (a, w'). f a w')
Took-after_value Q s k q w f sees h =
    Took-bind (Stays w.memory) Q s _ _ (after_value-Stays s k q w sees)
      (λ u c rest w' e sees' (none_taken, same).
        let all : s ≡ rest = rw none_taken at e in
        rw (none_taken, sym all) (h w' (rw all sees') same))
