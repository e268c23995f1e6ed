-- ===== src/Parser/Took.antt =====
-- What a command that returns has taken from the text: a relation between the result, the characters
-- taken, those that are left, and the memory, with a rule for each kind of command.
pub mod Scalars
pub mod Integers
pub mod Settled
pub mod Values
use btor.Base.{ℕ, ◌≤◌, ◌≡◌, refl, sym, ap, [], ◌∷◌, ◌++◌, ◌∙◌, append_assoc, arith, inl, inr}
use btor.Base.{
  Bytes, length, length-drop, get_elem?-none, if◌then◌else◌, ◌==◌, ==_iff, Bool-cases, leb,
}
use btor.Base.Outcome
use btor.Base.Outcome.{Outcome, ok, raised, exited, aborted, undefined, out_of_fuel, out_of_range}
use btor.Cursor.{
  World, Cmd, BParser, lift, taken, ◌>>=◌, ◌>>◌, consume_char, peek_char, alloc, update,
}
use btor.Cursor.Sees.{Sees, Sees-taken, consume-Sees, peek-Sees}
use btor.Memory.Amend.{Open, amend, update-Open}
use btor.Memory.Build.{created}
use btor.Memory.{Memory, next, get_new_bobject}
use btor.Object.Dict.{Ptr}
use btor.Object.{BObject, Kind}
use btor.Parser.{isprint, message, assert_char, throw_parser_error}

-- result, taken, left, memory
abbrev pub Reading : Type 0 → Type 1
Reading A = A → Bytes → Bytes → Memory → Type 0

unfoldable pub Took : {A : Type 0} → Reading A → Bytes → Outcome (A × World) → Type 0
Took Q s (ok (a, w)) =
    (c : Bytes) × (rest : Bytes) × (s ≡ c ++ rest) × Sees rest w.parser × Q a c rest w.memory
Took Q s _ = Unit {0}

-- `Q`, where `c` had been taken before.
abbrev pub Behind : {A : Type 0} → Bytes → Reading A → Reading A
Behind c Q = λ a c' rest m. Q a (c ++ c') rest m

module _ {A : Type 0} where
  pub Took-weaken :
      (P Q : Reading A) (s : Bytes) (r : Outcome (A × World))
      → Took P s r
      → ((a : A) (c rest : Bytes) (m : Memory) → s ≡ c ++ rest → P a c rest m → Q a c rest m)
      → Took Q s r
  unfolding Took
  Took-weaken P Q s (ok (a, w)) (c, rest, e, sees, p) k =
      (c, rest, e, sees, k a c rest w.memory e p)
  Took-weaken P Q s (raised x) h k = tt
  Took-weaken P Q s (exited x) h k = tt
  Took-weaken P Q s aborted h k = tt
  Took-weaken P Q s undefined h k = tt
  Took-weaken P Q s out_of_fuel h k = tt

  pub Took-behind :
      (Q : Reading A) (s c rest : Bytes) (r : Outcome (A × World))
      → s ≡ c ++ rest
      → Took (Behind c Q) rest r
      → Took Q s r
  unfolding Took
  Took-behind Q s c rest (ok (a, w)) e (c', rest', e', sees, q) =
      (c ++ c', rest', e ∙ ap (◌++◌ c) e' ∙ sym (append_assoc c c' rest'), sees, q)
  Took-behind Q s c rest (raised x) e h = tt
  Took-behind Q s c rest (exited x) e h = tt
  Took-behind Q s c rest aborted e h = tt
  Took-behind Q s c rest undefined e h = tt
  Took-behind Q s c rest out_of_fuel e h = tt

  pub Took-here :
      (Q : Reading A) (s : Bytes) (a : A) (w : World)
      → Sees s w.parser
      → Q a [] s w.memory
      → Took Q s (ok (a, w))
  unfolding Took
  Took-here Q s a w sees q = ([], s, refl, sees, q)

  pub Took-out_of_fuel : (Q : Reading A) (s : Bytes) → Took Q s out_of_fuel
  unfolding Took
  Took-out_of_fuel Q s = tt

  pub Took-undefined : (Q : Reading A) (s : Bytes) → Took Q s undefined
  unfolding Took
  Took-undefined Q s = tt

  pub Took-throw :
      (Q : Reading A) (s : Bytes) (c : ℕ) (w : World) → Took Q s (throw_parser_error {A = A} c w)
  unfolding Took throw_parser_error
  Took-throw Q s c w = elim (Bool-cases (leb (if isprint c then c else b'?') (length message))) [
    | inl e ↦ rw e tt
    | inr e ↦ rw e tt
  ]

pub Took-bind :
    {A B : Type 0} (P : Reading A) (Q : Reading B) (s : Bytes) (r : Outcome (A × World))
    (f : A → Cmd B)
    → Took P s r
    → ((a : A) (c rest : Bytes) (w : World)
        → s ≡ c ++ rest
        → Sees rest w.parser
        → P a c rest w.memory
        → Took (Behind c Q) rest (f a w))
    → Took Q s (Outcome.bind r λ (a, w). f a w)
unfolding Took
Took-bind P Q s (ok (a, w)) f (c, rest, e, sees, p) k =
    Took-behind Q s c rest (f a w) e (k a c rest w e sees p)
Took-bind P Q s (raised x) f h k = tt
Took-bind P Q s (exited x) f h k = tt
Took-bind P Q s aborted f h k = tt
Took-bind P Q s undefined f h k = tt
Took-bind P Q s out_of_fuel f h k = tt

-- Nothing is seen at the end.
module _ (w : World) (sees : Sees [] w.parser) where
  pub ended : length w.parser.parse_buf ≤ w.parser.cursor
  ended = omega (arith, ap length sees.ahead, length-drop w.parser.cursor w.parser.parse_buf)

  consume-nil : consume_char w ≡ raised out_of_range
  unfolding consume_char
  consume-nil = rw (get_elem?-none w.parser.parse_buf w.parser.cursor ended) refl

  peek-nil : peek_char w ≡ raised out_of_range
  unfolding peek_char
  peek-nil = rw (get_elem?-none w.parser.parse_buf w.parser.cursor ended) refl

-- The sequences that begin with a command, by what it gives.
module _ {B : Type 0} (Q : Reading B) (s : Bytes) (w : World) (sees : Sees s w.parser) where
  abbrev Goes : {A : Type 0} → Cmd A → (A → Cmd B) → Type 0
  Goes m f = Took Q s (Outcome.bind (m w) λ (a, w'). f a w')

  pub Took-consume :
      (f : ℕ → Cmd B)
      → ((ch : ℕ) (rest : Bytes)
          → s ≡ ch ∷ rest
          → Sees rest (taken ch w.parser)
          → Took (Behind (ch ∷ []) Q) rest (f ch (record w { parser = taken ch w.parser })))
      → Goes consume_char f
  Took-consume f k = taken_from s sees refl
    where
      taken_from : (t : Bytes) → Sees t w.parser → s ≡ t → Goes consume_char f
      taken_from [] here e = rw (consume-nil w here) (unfold Took in tt)
      taken_from (ch ∷ rest) here e =
          rw (consume-Sees w here)
            (Took-behind Q s (ch ∷ []) rest _ e (k ch rest e (Sees-taken here)))

  pub Took-peek :
      (f : ℕ → Cmd B)
      → ((ch : ℕ) (rest : Bytes) → s ≡ ch ∷ rest → Took Q s (f ch w))
      → Goes peek_char f
  Took-peek f k = seen s sees refl
    where
      seen : (t : Bytes) → Sees t w.parser → s ≡ t → Goes peek_char f
      seen [] here e = rw (peek-nil w here) (unfold Took in tt)
      seen (ch ∷ rest) here e = rw (peek-Sees w here) (k ch rest e)

  pub Took-lift :
      {A : Type 0} (r : Outcome A) (f : A → Cmd B)
      → ((a : A) → r ≡ ok a → Took Q s (f a w))
      → Goes (lift r) f
  Took-lift (ok a) f k = k a refl
  Took-lift (raised x) f k = unfold Took in tt
  Took-lift (exited n) f k = unfold Took in tt
  Took-lift aborted f k = unfold Took in tt
  Took-lift undefined f k = unfold Took in tt
  Took-lift out_of_fuel f k = unfold Took in tt

  pub Took-assert :
      (expected ch : ℕ) (f : Unit {0} → Cmd B)
      → (ch ≡ expected → Took Q s (f tt w))
      → Goes (assert_char expected ch) f
  Took-assert expected ch f k = elim (Bool-cases (ch == expected)) [
    | inl e ↦ rw e (k ((==_iff ch expected).0 e))
    | inr e ↦ rw e (unfold Took in tt)
  ]

  pub Took-alloc :
      (o : BObject) (f : Ptr → Cmd B)
      → Took Q s (f (next w.memory) (record w { memory = created o w.memory }))
      → Goes (alloc o) f
  unfolding alloc get_new_bobject
  Took-alloc o f h = h

  pub Took-update :
      (k : Kind) (p : Ptr) (g : BObject → Outcome BObject) (h : BObject → BObject)
      (f : Unit {0} → Cmd B) (here : Open k p w.memory)
      → g here.object ≡ ok (h here.object)
      → Took Q s (f tt (record w { memory = amend p h w.memory }))
      → Goes (update p g) f
  Took-update k p g h f here e t = rw (update-Open g h w here e) t
