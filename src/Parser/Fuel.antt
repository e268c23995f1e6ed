-- ===== src/Parser/Fuel.antt =====
-- The parser ends: what a call may use of its fuel, and how far the cursor moves. The fuel that
-- `parse_bencoded_string` hands out is enough for every text of fewer than 2^32 characters.
use btor.Base.{ap, ℕ, ◌+◌, ◌-◌, ◌<◌, ◌≤◌, ◌^◌, ◌≡◌, ◌≢◌, refl, ◌∙◌, arith, inl, inr}
use btor.Base.{
  length, if◌then◌else◌, ◌==◌, Bool-cases, Option-cases, get_elem?, get_elem?-some_lt, leb,
}
use btor.Base.Outcome
use btor.Base.Outcome.{Outcome, ok, raised, exited, aborted, undefined, out_of_fuel}
use btor.Cursor.{World, Cmd, taken, consume_char, peek_char, alloc, update, query}
use btor.Memory.Amend.{deref-ne}
use btor.Memory.{deref}
use btor.Object.Dict.{Ptr}
use btor.Object.{BObject}
use btor.Parser.{isprint, message, assert_char, throw_parser_error}

abbrev pub size : World → ℕ
size w = length w.parser.parse_buf

-- what is left to read
abbrev pub left : World → ℕ
left w = size w - w.parser.cursor

-- The cursor stands in the buffer, which is short enough for an `unsigned int`.
abbrev pub InBuffer : World → Type 0
InBuffer w = (w.parser.cursor ≤ size w) × (size w < 2 ^ 32)

-- From `w` to `w'` at least `k` characters were read, of the same buffer.
abbrev pub Reaches : ℕ → World → World → Type 0
Reaches k w w' =
    (w'.parser.parse_buf ≡ w.parser.parse_buf)
    × (w.parser.cursor + k ≤ w'.parser.cursor)
    × InBuffer w'

-- The run stayed within its fuel, and read `k` characters if it returned.
unfoldable pub Ends : {A : Type 0} → ℕ → World → Outcome (A × World) → Type 0
Ends k w (ok (a, w')) = Reaches k w w'
Ends k w out_of_fuel = ⊥
Ends k w _ = Unit {0}

Ends-shift :
    {A : Type 0} (j k : ℕ) (w w' : World) (r : Outcome (A × World))
    → Reaches j w w'
    → Ends k w' r
    → Ends (j + k) w r
unfolding Ends
Ends-shift j k w w' (ok (b, w'')) p q = (q.0 ∙ p.0, omega arith, q.2)
Ends-shift j k w w' (raised e) p q = tt
Ends-shift j k w w' (exited n) p q = tt
Ends-shift j k w w' aborted p q = tt
Ends-shift j k w w' undefined p q = tt
Ends-shift j k w w' out_of_fuel p q = q

pub Ends-weaken :
    {A : Type 0} (j k : ℕ) (w : World) (r : Outcome (A × World)) → j ≤ k → Ends k w r → Ends j w r
unfolding Ends
Ends-weaken j k w (ok (b, w'')) p q = (q.0, omega arith, q.2)
Ends-weaken j k w (raised e) p q = tt
Ends-weaken j k w (exited n) p q = tt
Ends-weaken j k w aborted p q = tt
Ends-weaken j k w undefined p q = tt
Ends-weaken j k w out_of_fuel p q = q

pub Ends-bind :
    {A B : Type 0} (j k : ℕ) (w : World) (r : Outcome (A × World)) (f : A → Cmd B)
    → Ends j w r
    → ((a : A) (w' : World) → Reaches j w w' → Ends k w' (f a w'))
    → Ends (j + k) w (Outcome.bind r λ (a, w'). f a w')
unfolding Ends
Ends-bind j k w (ok (a, w')) f h g = Ends-shift j k w w' (f a w') h (g a w' h)
Ends-bind j k w (raised e) f h g = tt
Ends-bind j k w (exited n) f h g = tt
Ends-bind j k w aborted f h g = tt
Ends-bind j k w undefined f h g = tt
Ends-bind j k w out_of_fuel f h g = h

pub Ends-ne :
    {A : Type 0} (k : ℕ) (w : World) (r : Outcome (A × World)) → Ends k w r → r ≢ out_of_fuel
unfolding Ends
Ends-ne k w (ok a) h = cc
Ends-ne k w (raised e) h = cc
Ends-ne k w (exited n) h = cc
Ends-ne k w aborted h = cc
Ends-ne k w undefined h = cc
Ends-ne k w out_of_fuel h = absurd h

-- Commands that read nothing.
module _ (w : World) (here : InBuffer w) where
  pub Ends-here : {A : Type 0} (a : A) → Ends 0 w (ok (a, w))
  unfolding Ends
  Ends-here a = (refl, omega arith, here)

  pub Ends-then :
      {A B : Type 0} (r : Outcome A) (f : A → Outcome (B × World))
      → r ≢ out_of_fuel
      → ((a : A) → Ends 0 w (f a))
      → Ends 0 w (Outcome.bind r f)
  unfolding Ends
  Ends-then (ok a) f h k = k a
  Ends-then (raised e) f h k = tt
  Ends-then (exited n) f h k = tt
  Ends-then aborted f h k = tt
  Ends-then undefined f h k = tt
  Ends-then out_of_fuel f h k = h refl

  pub Ends-lift :
      {A : Type 0} (r : Outcome A) → r ≢ out_of_fuel → Ends 0 w (Outcome.bind r λ a. ok (a, w))
  Ends-lift r h = Ends-then r _ h Ends-here

  pub Ends-assert : (expected c : ℕ) → Ends 0 w (assert_char expected c w)
  unfolding Ends
  Ends-assert expected c = elim (Bool-cases (c == expected)) [
    | inl e ↦ rw e (refl, omega arith, here)
    | inr e ↦ rw e tt
  ]

  pub Ends-throw : (A : Type 0) (c k : ℕ) → Ends k w (throw_parser_error {A = A} c w)
  unfolding Ends throw_parser_error
  Ends-throw A c k = elim (Bool-cases (leb (if isprint c then c else b'?') (length message))) [
    | inl e ↦ rw e tt
    | inr e ↦ rw e tt
  ]

  pub Ends-alloc : (o : BObject) → Ends 0 w (alloc o w)
  unfolding Ends alloc
  Ends-alloc o = (refl, omega arith, here)

  pub Ends-peek : Ends 0 w (peek_char w)
  unfolding Ends peek_char
  Ends-peek = elim (Option-cases (get_elem? w.parser.parse_buf w.parser.cursor)) [
    | inl e ↦ rw e tt
    | inr (c, e) ↦ rw e (refl, omega arith, here)
  ]

  pub Ends-consume : Ends 1 w (consume_char w)
  unfolding Ends consume_char taken
  Ends-consume = elim (Option-cases (get_elem? w.parser.parse_buf w.parser.cursor)) [
    | inl e ↦ rw e tt
    | inr (c, e) ↦
        let inside = get_elem?-some_lt w.parser.parse_buf w.parser.cursor e in
        rw e (refl, omega (arith, inside), (omega (arith, inside), here.1))
  ]

  pub Ends-update :
      (p : Ptr) (f : BObject → Outcome BObject)
      → ((o : BObject) → f o ≢ out_of_fuel)
      → Ends 0 w (update p f w)
  unfolding Ends update
  Ends-update p f h =
      Ends-then (deref p w.memory) _ (deref-ne p w.memory)
        (λ o. Ends-then (f o) _ (h o) (λ o'. (refl, omega arith, here)))

  pub Ends-query :
      {A : Type 0} (p : Ptr) (f : BObject → Outcome A)
      → ((o : BObject) → f o ≢ out_of_fuel)
      → Ends 0 w (query p f w)
  unfolding Ends query
  Ends-query p f h =
      Ends-then (deref p w.memory) _ (deref-ne p w.memory)
        (λ o. Ends-then (f o) _ (h o) (λ a. (refl, omega arith, here)))

pub left-Reaches : (k : ℕ) (w w' : World) → Reaches k w w' → left w' + k ≤ left w
left-Reaches k w w' r = omega (arith, ap length r.0)
