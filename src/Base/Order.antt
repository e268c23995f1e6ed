-- ===== src/Base/Order.antt =====
-- The order of `std::string` is a strict order that decides equality.
use Prim.Native.Nat.{Ordering}
use btor.Base.Strings.{Bytes, bytes_eq, bytes_compare, bytes_eq→eq}
use mathlib.Core.Bool.{Bool, true, false}
use mathlib.Core.List.{[], ◌∷◌}
use mathlib.Core.Logic.{◌⊎◌, inl, inr}
use mathlib.Core.Path.{◌≡◌, refl}
use native.Mathlib.Omega.{arith}

pub bytes_compare_refl : (a : Bytes) → bytes_compare a a ≡ Ordering.eq
unfolding bytes_compare
bytes_compare_refl [] = refl
bytes_compare_refl (x ∷ xs) = ground (arith, bytes_compare_refl xs)

pub bytes_compare→eq : (a b : Bytes) → bytes_compare a b ≡ Ordering.eq → a ≡ b
unfolding bytes_compare
bytes_compare→eq [] [] h = refl
bytes_compare→eq [] (y ∷ ys) h = cc
bytes_compare→eq (x ∷ xs) [] h = cc
bytes_compare→eq (x ∷ xs) (y ∷ ys) h = ground (arith, bytes_compare→eq xs ys)

pub bytes_compare_trans :
    (a b c : Bytes)
    → bytes_compare a b ≡ Ordering.lt
    → bytes_compare b c ≡ Ordering.lt
    → bytes_compare a c ≡ Ordering.lt
unfolding bytes_compare
bytes_compare_trans [] [] c h k = cc
bytes_compare_trans [] (y ∷ ys) [] h k = cc
bytes_compare_trans [] (y ∷ ys) (z ∷ zs) h k = refl
bytes_compare_trans (x ∷ xs) [] c h k = cc
bytes_compare_trans (x ∷ xs) (y ∷ ys) [] h k = cc
bytes_compare_trans (x ∷ xs) (y ∷ ys) (z ∷ zs) h k = ground (arith, bytes_compare_trans xs ys zs)

pub bytes_compare_flip :
    (a b : Bytes) → bytes_compare a b ≡ Ordering.gt → bytes_compare b a ≡ Ordering.lt
unfolding bytes_compare
bytes_compare_flip [] [] h = cc
bytes_compare_flip [] (y ∷ ys) h = cc
bytes_compare_flip (x ∷ xs) [] h = refl
bytes_compare_flip (x ∷ xs) (y ∷ ys) h = ground (arith, bytes_compare_flip xs ys)

-- what the order says of equality
pub bytes_compare_lt-ne : (a b : Bytes) → bytes_compare a b ≡ Ordering.lt → bytes_eq b a ≡ false
bytes_compare_lt-ne a b h = ne_of_lt (bytes_eq b a) refl
  where
    ne_of_lt : (t : Bool) → bytes_eq b a ≡ t → t ≡ false
    ne_of_lt false e = refl
    ne_of_lt true e = let same : b ≡ a = bytes_eq→eq b a e in cc (bytes_compare_refl a, h, same)

pub Ordering-cases : (o : Ordering) → (o ≡ Ordering.lt) ⊎ (o ≡ Ordering.eq) ⊎ (o ≡ Ordering.gt)
Ordering-cases Ordering.lt = inl refl
Ordering-cases Ordering.eq = inr (inl refl)
Ordering-cases Ordering.gt = inr (inr refl)
