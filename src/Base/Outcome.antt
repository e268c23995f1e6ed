-- ===== src/Base/Outcome.antt =====
-- How a call ends: with a value, by a C++ exception, by `exit`, by a failed `assert`
-- (`aborted`), or in undefined behaviour.
use Prim.Native.Nat.{ℕ}
use mathlib.Core.List.{List}
use mathlib.Core.Path.{◌≡◌, refl}

-- btor/bencode.h: BTypeException, BDictKeyException and BParserException with its `errMsg`;
-- `out_of_range` is what `std::vector::at` throws.
pub data Exception : Type 0 where
  type_error key_error out_of_range : Exception
  parser_error : List ℕ → Exception

-- `undefined` is undefined behaviour; `out_of_fuel` has no counterpart in the program.
pub data Outcome {ℓ} (A : Type ℓ) : Type ℓ where
  ok : A → Outcome A
  raised : Exception → Outcome A
  exited : ℕ → Outcome A
  aborted undefined out_of_fuel : Outcome A

abbrev pub bind {ℓ κ} : {A : Type ℓ} {B : Type κ} → Outcome A → (A → Outcome B) → Outcome B
bind (ok a) f = f a
bind (raised e) f = raised e
bind (exited n) f = exited n
bind aborted f = aborted
bind undefined f = undefined
bind out_of_fuel f = out_of_fuel

-- A chain of calls that gives a value: its first call does, and the rest does from there.
pub bind-eq-ok {ℓ κ} :
    {A : Type ℓ} {B : Type κ} (r : Outcome A) (f : A → Outcome B) {b : B}
    → bind r f ≡ ok b
    → (a : A) × (r ≡ ok a) × (f a ≡ ok b)
bind-eq-ok (ok a) f h = (a, refl, h)
bind-eq-ok (raised e) f h = cc
bind-eq-ok (exited n) f h = cc
bind-eq-ok aborted f h = cc
bind-eq-ok undefined f h = cc
bind-eq-ok out_of_fuel f h = cc

-- What holds of the result, where there is one.
abbrev pub Returns {ℓ κ} : {A : Type ℓ} → (A → Type κ) → Outcome A → Type κ
Returns P (ok a) = P a
Returns P _ = Unit

pub Returns-bind {ℓ κ} :
    {A : Type ℓ} {B : Type ℓ} (P : B → Type κ) (r : Outcome A) (f : A → Outcome B)
    → ((a : A) → r ≡ ok a → Returns P (f a))
    → Returns P (bind r f)
Returns-bind P (ok a) f h = h a refl
Returns-bind P (raised x) f h = tt
Returns-bind P (exited n) f h = tt
Returns-bind P aborted f h = tt
Returns-bind P undefined f h = tt
Returns-bind P out_of_fuel f h = tt

pub Returns-eq {ℓ κ} :
    {A : Type ℓ} (P : A → Type κ) (a : A) (r : Outcome A) → Returns P r → r ≡ ok a → P a
Returns-eq P a r h e = let here : Returns P (ok a) = rw e at h in here

pub Returns-map {ℓ κ μ} :
    {A : Type ℓ} (P : A → Type κ) (Q : A → Type μ) (r : Outcome A)
    → ((a : A) → P a → Q a)
    → Returns P r
    → Returns Q r
Returns-map P Q (ok a) f h = f a h
Returns-map P Q (raised e) f h = tt
Returns-map P Q (exited n) f h = tt
Returns-map P Q aborted f h = tt
Returns-map P Q undefined f h = tt
Returns-map P Q out_of_fuel f h = tt
