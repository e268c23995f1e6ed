-- ===== src/Memory/Destroyed.antt =====
-- The destructor of the memory manager on sound objects.
use btor.Base.{List, ap, ℕ, zero, suc, ◌+◌, ◌≤◌, ◌<◌, ◌≡◌, refl, some, none, ◌∙◌, inl, inr, arith}
use btor.Base.{
  get_elem?, get_elem?-set_self, get_elem?-set_ne, length-set, ◌==◌, ==_iff, Bool-cases, set,
}
use btor.Base.Outcome.{ok}
use btor.Memory.{Memory, next, deref, delete, delete_all, destroy}
use btor.Memory.Sound.{IsSound, count_from}
use btor.Object.Dict.{Ptr}
use btor.Object.{BObject}

-- Below `i` every cell is deleted, and the others hold objects.
record Halfway (i : ℕ) (m : Memory) : Type 0 where
  deleted : (p : Ptr) → p < i → get_elem? m.heap p ≡ some none
  remaining : (p : Ptr) → i ≤ p → p < next m → (o : BObject) × (get_elem? m.heap p ≡ some (some o))

abbrev deleted_at : Ptr → Memory → Memory
deleted_at p m = record m { heap = set m.heap p none }

Halfway-step :
    (i : ℕ) (m : Memory)
    → i < next m
    → Halfway i m
    → (delete i m ≡ ok (deleted_at i m)) × Halfway (suc i) (deleted_at i m)
unfolding delete deref
Halfway-step i m h half =
    let (o, at_i) = half.remaining i (omega arith) h in
    let same = length-set m.heap i none in
    (
      rw at_i,
      record {
        deleted = λ p below. elim (Bool-cases (i == p)) [
          | inl e ↦ rw (← (==_iff i p).0 e) (get_elem?-set_self m.heap i none h)
          | inr e ↦ get_elem?-set_ne m.heap i p none (ground arith) ∙ half.deleted p (ground arith)
        ];
        remaining = λ p above below.
            let (o', at_p) = half.remaining p (omega arith) (omega (arith, same)) in
            (o', get_elem?-set_ne m.heap i p none (omega arith) ∙ at_p);
      },
    )

delete_all-Halfway :
    (k i : ℕ) (m : Memory)
    → i + k ≡ next m
    → Halfway i m
    → (m' : Memory) × (delete_all (count_from i k) m ≡ ok m')
      × (next m' ≡ next m)
      × Halfway (i + k) m'
unfolding delete_all
delete_all-Halfway zero i m e half =
    (m, refl, refl, let same : i ≡ i + 0 = omega arith in rw (← same) half)
delete_all-Halfway (suc k) i m e half =
    let (done, half') = Halfway-step i m (omega arith) half in
    let same = length-set m.heap i none in
    let (m', runs, size, end) =
      delete_all-Halfway k (suc i) (deleted_at i m) (omega (arith, same)) half' in
    let sum : suc i + k ≡ i + suc k = omega arith in (m', rw done runs, size ∙ same, rw (← sum) end)

-- The destructor of the memory manager deletes every object of a sound memory, each once: it never
-- deletes an object that is gone, and leaves none behind.
pub destroy-IsSound :
    (m : Memory)
    → IsSound m
    → (m' : Memory) × (destroy m ≡ ok m')
      × (next m' ≡ next m)
      × ((p : Ptr) → p < next m' → get_elem? m'.heap p ≡ some none)
unfolding destroy
destroy-IsSound m sound =
    let (m', runs, size, end) = delete_all-Halfway (next m) 0 m (omega arith) (record {
      deleted = λ p h. absurd (omega arith);
      remaining = λ p a b. let (o, e, _) = sound.live p b in (o, e);
    }) in
    (
      m',
      ap (λ (ps : List Ptr). delete_all ps m) sound.tracked ∙ runs,
      size,
      λ p h. end.deleted p (omega arith),
    )
