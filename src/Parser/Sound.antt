-- ===== src/Parser/Sound.antt =====
-- The parser keeps the objects of the memory manager sound, whatever it reads.
use btor.Base.{ℕ, ◌≤◌, ◌<◌, ◌≡◌, refl, [], arith, inl, inr}
use btor.Base.{
  length-set, some, if◌then◌else◌, ◌==◌, Bool-cases, Option-cases, get_elem?, length, leb,
}
use btor.Base.Outcome
use btor.Base.Outcome.{Outcome, ok, raised, exited, aborted, undefined, out_of_fuel}
use btor.Cursor.{World, Cmd, consume_char, peek_char, alloc, update, query}
use btor.Memory.Amend.{length-get_new}
use btor.Memory.Sound.{IsSound, PointsBehind, deref-IsSound, get_new_bobject-IsSound, store-IsSound}
use btor.Memory.{Memory, next, get_new_bobject, deref, store}
use btor.Object.Dict.{Ptr}
use btor.Object.{BObject}
use btor.Parser.{isprint, message, assert_char, throw_parser_error}

-- A command that returns has kept the objects sound, has freed none, and its result has the property.
unfoldable pub Safe : {A : Type 0} → (A → Memory → Type 0) → ℕ → Outcome (A × World) → Type 0
Safe P n (ok (a, w)) = IsSound w.memory × (n ≤ next w.memory) × P a w.memory
Safe P n _ = Unit {0}

-- No property of the result.
abbrev pub Any : {A : Type 0} → A → Memory → Type 0
Any a m = Unit {0}

-- A pointer from `n` on.
abbrev pub From : ℕ → Ptr → Memory → Type 0
From n p m = (n ≤ p) × (p < next m)

pub Safe-bind :
    {A B : Type 0} (P : A → Memory → Type 0) (Q : B → Memory → Type 0) (n : ℕ)
    (r : Outcome (A × World)) (f : A → Cmd B)
    → Safe P n r
    → ((a : A) (w : World) → IsSound w.memory → n ≤ next w.memory → P a w.memory → Safe Q n (f a w))
    → Safe Q n (Outcome.bind r λ (a, w). f a w)
unfolding Safe
Safe-bind P Q n (ok (a, w)) f h k = k a w h.0 h.1 h.2
Safe-bind P Q n (raised e) f h k = tt
Safe-bind P Q n (exited x) f h k = tt
Safe-bind P Q n aborted f h k = tt
Safe-bind P Q n undefined f h k = tt
Safe-bind P Q n out_of_fuel f h k = tt

pub Safe-weaken :
    {A : Type 0} (P Q : A → Memory → Type 0) (n n' : ℕ) (r : Outcome (A × World))
    → n' ≤ n
    → ((a : A) (m : Memory) → P a m → Q a m)
    → Safe P n r
    → Safe Q n' r
unfolding Safe
Safe-weaken P Q n n' (ok (a, w)) le k h = (h.0, omega arith, k a w.memory h.2)
Safe-weaken P Q n n' (raised e) le k h = tt
Safe-weaken P Q n n' (exited x) le k h = tt
Safe-weaken P Q n n' aborted le k h = tt
Safe-weaken P Q n n' undefined le k h = tt
Safe-weaken P Q n n' out_of_fuel le k h = tt

pub Safe-out_of_fuel : {A : Type 0} (P : A → Memory → Type 0) (n : ℕ) → Safe P n out_of_fuel
unfolding Safe
Safe-out_of_fuel P n = tt

pub Safe-undefined : {A : Type 0} (P : A → Memory → Type 0) (n : ℕ) → Safe P n undefined
unfolding Safe
Safe-undefined P n = tt

-- A result that takes no command.
pub Safe-then :
    {A B : Type 0} (Q : B → Memory → Type 0) (n : ℕ) (r : Outcome A) (f : A → Outcome (B × World))
    → ((a : A) → r ≡ ok a → Safe Q n (f a))
    → Safe Q n (Outcome.bind r f)
unfolding Safe
Safe-then Q n (ok a) f k = k a refl
Safe-then Q n (raised e) f k = tt
Safe-then Q n (exited x) f k = tt
Safe-then Q n aborted f k = tt
Safe-then Q n undefined f k = tt
Safe-then Q n out_of_fuel f k = tt

module _ (n : ℕ) (w : World) (sound : IsSound w.memory) (old : n ≤ next w.memory) where
  pub Safe-here : {A : Type 0} (a : A) → Safe Any n (ok (a, w))
  unfolding Safe
  Safe-here a = (sound, old, tt)

  pub Safe-lift : {A : Type 0} (r : Outcome A) → Safe Any n (Outcome.bind r λ a. ok (a, w))
  Safe-lift r = Safe-then Any n r _ (λ a e. Safe-here a)

  pub Safe-assert : (expected c : ℕ) → Safe Any n (assert_char expected c w)
  unfolding Safe
  Safe-assert expected c = elim (Bool-cases (c == expected)) [
    | inl e ↦ rw e (sound, old, tt)
    | inr e ↦ rw e tt
  ]

  pub Safe-throw :
      {A : Type 0} (P : A → Memory → Type 0) (c : ℕ) → Safe P n (throw_parser_error {A = A} c w)
  unfolding Safe throw_parser_error
  Safe-throw P c = elim (Bool-cases (leb (if isprint c then c else b'?') (length message))) [
    | inl e ↦ rw e tt
    | inr e ↦ rw e tt
  ]

  pub Safe-peek : Safe Any n (peek_char w)
  unfolding Safe peek_char
  Safe-peek = elim (Option-cases (get_elem? w.parser.parse_buf w.parser.cursor)) [
    | inl e ↦ rw e tt
    | inr (c, e) ↦ rw e (sound, old, tt)
  ]

  pub Safe-consume : Safe Any n (consume_char w)
  unfolding Safe consume_char
  Safe-consume = elim (Option-cases (get_elem? w.parser.parse_buf w.parser.cursor)) [
    | inl e ↦ rw e tt
    | inr (c, e) ↦ rw e (sound, old, tt)
  ]

  pub Safe-alloc : (o : BObject) → o.list_val ≡ [] → o.dict_val ≡ [] → Safe (From n) n (alloc o w)
  unfolding Safe alloc get_new_bobject
  Safe-alloc o a b =
      let grown = length-get_new o w.memory in
      (
        get_new_bobject-IsSound w.memory sound o a b,
        omega (arith, grown),
        (old, omega (arith, grown)),
      )

  -- A method that changes the object at `p` and adds pointers behind `p` only.
  pub Safe-update :
      (p : Ptr) (f : BObject → Outcome BObject)
      → p < next w.memory
      → ((o o' : BObject)
          → PointsBehind p (next w.memory) o
          → f o ≡ ok o'
          → PointsBehind p (next w.memory) o')
      → Safe Any n (update p f w)
  unfolding update
  Safe-update p f below keeps = Safe-then Any n (deref p w.memory) _ (λ o e.
      Safe-then Any n (f o) _ (λ o' e'.
        let (o₀, at_p, b) = deref-IsSound w.memory sound p below in
        let same : o ≡ o₀ = cc (e, at_p) in
        let b' = keeps o o' (rw same b) e' in
        let after : Safe Any n (ok (tt, record w { memory = store p o' w.memory })) =
          unfold Safe store in
          (
            store-IsSound w.memory sound p o' below b',
            omega (arith, length-set w.memory.heap p (some o'), old),
            tt,
          ) in
        after))

  pub Safe-query : {A : Type 0} (p : Ptr) (f : BObject → Outcome A) → Safe Any n (query p f w)
  unfolding query
  Safe-query p f =
      Safe-then Any n (deref p w.memory) _ (λ o e. Safe-then Any n (f o) _ (λ a e'. Safe-here a))
