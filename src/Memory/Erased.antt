-- ===== src/Memory/Erased.antt =====
-- What deleting some of the objects does: the elements of a list that the parser made can be deleted
-- once, and the destructor of the memory manager then meets one that is gone.
use btor.Base.{
  ℕ, zero, suc, ◌+◌, ◌≤◌, ◌<◌, ◌≡◌, ◌⊎◌, refl, ap, none, some, List, [], ◌∷◌, ◌∙◌, inl, inr, arith,
}
use btor.Base.{
  get_elem?, get_elem?-set_self, get_elem?-set_ne, get_elem?-some_lt, length-set, set, ◌==◌, ==_iff,
  Bool-cases, Option-cases,
}
use btor.Base.Outcome.{ok, undefined}
use btor.Bencode.{Items, no_items, item}
use btor.Memory.Denotes.{AllAbove, DenotesItems, Denotes, Denotes-Holds}
use btor.Memory.Sound.{IsSound, count_from}
use btor.Memory.{Memory, next, deref, delete, delete_all, destroy}
use btor.Object.Dict.{Ptr}
use btor.Object.{BObject}

abbrev deleted_at : Ptr → Memory → Memory
deleted_at p m = record m { heap = set m.heap p none }

abbrev IsLive : Memory → Ptr → Type 0
IsLive m p = (o : BObject) × (get_elem? m.heap p ≡ some (some o))

delete-live : (m : Memory) (p : Ptr) → IsLive m p → delete p m ≡ ok (deleted_at p m)
unfolding delete deref
delete-live m p (o, e) = rw e

-- Live objects in the order of their addresses.
abbrev AllLive : Memory → List Ptr → Type 0
AllLive m [] = Unit {0}
AllLive m (q ∷ qs) = IsLive m q × AllAbove q qs × AllLive m qs

AllLive-deleted :
    (m : Memory) (q : Ptr) (qs : List Ptr)
    → AllAbove q qs
    → AllLive m qs
    → AllLive (deleted_at q m) qs
AllLive-deleted m q [] above live = tt
AllLive-deleted m q (r ∷ qs) above ((o, e), apart, rest) = (
  (o, get_elem?-set_ne m.heap q r none (omega (arith, above.0)) ∙ e),
  apart,
  AllLive-deleted m q qs above.1 rest,
)

delete_all-AllLive :
    (m : Memory) (qs : List Ptr) → AllLive m qs → (m' : Memory) × (delete_all qs m ≡ ok m')
unfolding delete_all
delete_all-AllLive m [] live = (m, refl)
delete_all-AllLive m (q ∷ qs) (here, above, live) =
    let (m', e) = delete_all-AllLive (deleted_at q m) qs (AllLive-deleted m q qs above live) in
    (m', rw (delete-live m q here, e))

-- The elements of a list are such objects.
AllLive-Denotes :
    (m : Memory) (low : ℕ) (xs : Items) (qs : List Ptr) → DenotesItems m low qs xs → AllLive m qs
unfolding Denotes
AllLive-Denotes m low no_items [] h = tt
AllLive-Denotes m low no_items (q ∷ qs) h = absurd h
AllLive-Denotes m low (item v xs) [] h = absurd h
AllLive-Denotes m low (item v xs) (q ∷ qs) h =
    let (o, here) = Denotes-Holds m low v q h.0 in
    ((o, here.1), h.2, AllLive-Denotes m low xs qs h.1)

pub delete_all-Denotes :
    (m : Memory) (low : ℕ) (xs : Items) (qs : List Ptr)
    → DenotesItems m low qs xs
    → (m' : Memory) × (delete_all qs m ≡ ok m')
delete_all-Denotes m low xs qs h = delete_all-AllLive m qs (AllLive-Denotes m low xs qs h)

-- Deletion either is undefined, or leaves the cell empty and the list of objects as it was.
delete-cases :
    (p : Ptr) (m : Memory)
    → (delete p m ≡ undefined) ⊎ ((p < next m) × (delete p m ≡ ok (deleted_at p m)))
unfolding delete deref
delete-cases p m = elim (Option-cases (get_elem? m.heap p)) [
  | inl e ↦ inl (rw e refl)
  | inr (none, e) ↦ inl (rw e refl)
  | inr (some o, e) ↦ inr (get_elem?-some_lt m.heap p e, rw e refl)
]

abbrev IsDead : Ptr → Memory → Type 0
IsDead q m = get_elem? m.heap q ≡ some none

delete-IsDead : (q : Ptr) (m : Memory) → IsDead q m → delete q m ≡ undefined
unfolding delete deref
delete-IsDead q m dead = rw dead refl

IsDead-deleted : (p q : Ptr) (m : Memory) → IsDead q m → IsDead q (deleted_at p m)
IsDead-deleted p q m dead = elim (Bool-cases (p == q)) [
  | inl e ↦
      rw (← (==_iff p q).0 e)
        (get_elem?-set_self m.heap p none (rw ((==_iff p q).0 e) (get_elem?-some_lt m.heap q dead)))
  | inr e ↦ get_elem?-set_ne m.heap p q none (ground arith) ∙ dead
]

delete_all-IsDead :
    (ps : List Ptr) (q : Ptr) (m m' : Memory)
    → IsDead q m
    → delete_all ps m ≡ ok m'
    → IsDead q m' × (m'.objects ≡ m.objects) × (next m' ≡ next m)
unfolding delete_all
delete_all-IsDead [] q m m' dead e = let same : m ≡ m' = cc e in rw (← same) (dead, refl, refl)
delete_all-IsDead (p ∷ ps) q m m' dead e = elim (delete-cases p m) [
  | inl gone ↦ absurd (cc (rw gone at e))
  | inr (lt, here) ↦
      let (d, o, n) =
        delete_all-IsDead ps q (deleted_at p m) m' (IsDead-deleted p q m dead) (rw here at e) in
      (d, o, n ∙ length-set m.heap p none)
]

delete_all-count :
    (k i q : ℕ) (m : Memory)
    → i ≤ q
    → q < i + k
    → IsDead q m
    → delete_all (count_from i k) m ≡ undefined
unfolding delete_all
delete_all-count zero i q m le lt dead = absurd (omega arith)
delete_all-count (suc k) i q m le lt dead = elim (Bool-cases (i == q)) [
  | inl e ↦ rw ((==_iff i q).0 e) (rw (delete-IsDead q m dead) refl)
  | inr e ↦ elim (delete-cases i m) [
    | inl gone ↦ rw gone refl
    | inr (_, here) ↦ rw here (
        delete_all-count k (suc i) q (deleted_at i m) (ground arith) (omega arith)
          (IsDead-deleted i q m dead))
  ]
]

-- Where some of the objects of a sound memory have been deleted by hand, as `main` deletes the
-- tracker's peers, the destructor of the memory manager deletes one a second time: it is undefined.
pub destroy-delete_all :
    (q : Ptr) (qs : List Ptr) (m m' : Memory)
    → IsSound m
    → delete_all (q ∷ qs) m ≡ ok m'
    → destroy m' ≡ undefined
unfolding delete_all destroy
destroy-delete_all q qs m m' sound e = elim (delete-cases q m) [
  | inl gone ↦ absurd (cc (rw gone at e))
  | inr (lt, here) ↦
      let dead = get_elem?-set_self m.heap q none lt in
      let (d, objects, size) = delete_all-IsDead qs q (deleted_at q m) m' dead (rw here at e) in
      let same : m'.objects ≡ count_from 0 (next m) = objects ∙ sound.tracked in
      ap (λ (ps : List Ptr). delete_all ps m') same
      ∙ delete_all-count (next m) 0 q m' (omega arith) (omega arith) d
]
