-- ===== src/Memory/Sound.antt =====
-- The invariant of the objects that the memory manager owns: each is live and listed once, and points
-- only to objects that were allocated after it, so that no object reaches itself.
use btor.Base.{
  ℕ, zero, suc, ◌+◌, ◌≤◌, ◌<◌, ◌≡◌, refl, ap, sym, List, some, [], ◌∷◌, ◌++◌, ◌∙◌, inl, inr, arith,
}
use btor.Base.{
  Bytes, get_elem?, get_elem?-append_end, get_elem?-append_left, get_elem?-set_self,
  get_elem?-set_ne, length-append, length-set, ◌==◌, ==_iff, Bool-cases,
}
use btor.Base.Outcome.{ok}
use btor.Memory.{Memory, new_memory, next, get_new_bobject, deref, store}
use btor.Object.Dict.{Ptr, Dictionary, insert}
use btor.Object.{BObject}
use btor.Base.Order.{Ordering-cases}
use btor.Base.{bytes_compare}

-- Pointers behind `low` and before `high`.
abbrev pub Between : ℕ → ℕ → Ptr → Type 0
Between low high q = (low < q) × (q < high)

abbrev pub AllBetween : ℕ → ℕ → List Ptr → Type 0
AllBetween low high [] = Unit {0}
AllBetween low high (q ∷ qs) = Between low high q × AllBetween low high qs

abbrev pub ValuesBetween : ℕ → ℕ → Dictionary → Type 0
ValuesBetween low high [] = Unit {0}
ValuesBetween low high ((k, q) ∷ d) = Between low high q × ValuesBetween low high d

-- The object at `p` points only to objects behind it.
abbrev pub PointsBehind : Ptr → ℕ → BObject → Type 0
PointsBehind p high o = AllBetween p high o.list_val × ValuesBetween p high o.dict_val

AllBetween-append :
    (low high : ℕ) (qs : List Ptr) (q : Ptr)
    → AllBetween low high qs
    → Between low high q
    → AllBetween low high (qs ++ q ∷ [])
AllBetween-append low high [] q h b = (b, tt)
AllBetween-append low high (r ∷ qs) q h b = (h.0, AllBetween-append low high qs q h.1 b)

AllBetween-grow :
    (low high high' : ℕ) (qs : List Ptr)
    → high ≤ high'
    → AllBetween low high qs
    → AllBetween low high' qs
AllBetween-grow low high high' [] le h = tt
AllBetween-grow low high high' (q ∷ qs) le h =
    ((h.0.0, omega arith), AllBetween-grow low high high' qs le h.1)

ValuesBetween-grow :
    (low high high' : ℕ) (d : Dictionary)
    → high ≤ high'
    → ValuesBetween low high d
    → ValuesBetween low high' d
ValuesBetween-grow low high high' [] le h = tt
ValuesBetween-grow low high high' ((k, q) ∷ d) le h =
    ((h.0.0, omega arith), ValuesBetween-grow low high high' d le h.1)

ValuesBetween-insert :
    (low high : ℕ) (k : Bytes) (q : Ptr) (d : Dictionary)
    → ValuesBetween low high d
    → Between low high q
    → ValuesBetween low high (insert k q d)
unfolding insert
ValuesBetween-insert low high k q [] h b = (b, tt)
ValuesBetween-insert low high k q ((j, r) ∷ d) h b = elim (Ordering-cases (bytes_compare k j)) [
  | inl e ↦ rw (e, insert) (b, h)
  | inr (inl e) ↦ rw (e, insert) h
  | inr (inr e) ↦ rw (e, insert) (h.0, ValuesBetween-insert low high k q d h.1 b)
]

pub PointsBehind-grow :
    (p high high' : ℕ) (o : BObject) → high ≤ high' → PointsBehind p high o → PointsBehind p high' o
PointsBehind-grow p high high' o le h = (
  AllBetween-grow p high high' o.list_val le h.0,
  ValuesBetween-grow p high high' o.dict_val le h.1,
)

pub PointsBehind-pushed :
    (p high : ℕ) (q : Ptr) (o : BObject)
    → PointsBehind p high o
    → Between p high q
    → PointsBehind p high (record o { list_val = o.list_val ++ q ∷ [] })
PointsBehind-pushed p high q o h b = (AllBetween-append p high o.list_val q h.0 b, h.1)

pub PointsBehind-added :
    (p high : ℕ) (k : Bytes) (q : Ptr) (o : BObject)
    → PointsBehind p high o
    → Between p high q
    → PointsBehind p high (record o { dict_val = insert k q o.dict_val })
PointsBehind-added p high k q o h b = (h.0, ValuesBetween-insert p high k q o.dict_val h.1 b)

-- The addresses from `i` on, `n` of them.
abbrev pub count_from : ℕ → ℕ → List Ptr
count_from i zero = []
count_from i (suc n) = i ∷ count_from (suc i) n

count_from-suc : (i n j : ℕ) → i + n ≡ j → count_from i (suc n) ≡ count_from i n ++ j ∷ []
count_from-suc i zero j e = ap (λ (x : ℕ). x ∷ []) (omega arith)
count_from-suc i (suc n) j e =
    ap (λ (xs : List Ptr). i ∷ xs) (count_from-suc (suc i) n j (omega arith))

-- The object at an address.
abbrev pub Live : Memory → Ptr → Type 0
Live m p = (o : BObject) × (get_elem? m.heap p ≡ some (some o)) × PointsBehind p (next m) o

pub record IsSound (m : Memory) : Type 0 where
  pub tracked : m.objects ≡ count_from 0 (next m)
  pub live : (p : Ptr) → p < next m → Live m p

pub new_memory-IsSound : IsSound new_memory
new_memory-IsSound = record { tracked = refl; live = λ p h. absurd (omega arith) }

module _ (m : Memory) (sound : IsSound m) where
  pub deref-IsSound :
      (p : Ptr) → p < next m → (o : BObject) × (deref p m ≡ ok o) × PointsBehind p (next m) o
  unfolding deref
  deref-IsSound p h = let (o, e, b) = sound.live p h in (o, rw e, b)

  -- A new object that points to nothing.
  pub get_new_bobject-IsSound :
      (o : BObject) → o.list_val ≡ [] → o.dict_val ≡ [] → IsSound (get_new_bobject o m).1
  unfolding get_new_bobject
  get_new_bobject-IsSound o no_list no_dict =
      let m' = (get_new_bobject o m).1 in
      let grown : next m' ≡ suc (next m) = omega (arith, length-append m.heap (some o ∷ [])) in
      record {
        tracked =
            rw (sound.tracked, grown) (sym (count_from-suc 0 (next m) (next m) (omega arith)));
        live = λ p below. elim (Bool-cases (p == next m)) [
          | inl e ↦ (
            o,
            rw ((==_iff p (next m)).0 e) (get_elem?-append_end m.heap (some o)),
            rw (no_list, no_dict) (tt, tt),
          )
          | inr e ↦
              let old : p < next m = ground (arith, grown) in
              let (o', at_p, b) = sound.live p old in
              (
                o',
                get_elem?-append_left m.heap (some o ∷ []) p old ∙ at_p,
                PointsBehind-grow p (next m) (next m') o' (omega arith) b,
              )
        ];
      }

  pub store-IsSound :
      (p : Ptr) (o : BObject) → p < next m → PointsBehind p (next m) o → IsSound (store p o m)
  unfolding store
  store-IsSound p o h b =
      let m' = store p o m in
      let same : next m' ≡ next m = length-set m.heap p (some o) in
      record {
        tracked = rw same sound.tracked;
        live = λ i below. elim (Bool-cases (p == i)) [
          | inl e ↦ (
            o,
            rw (← (==_iff p i).0 e) (get_elem?-set_self m.heap p (some o) h),
            rw (← (==_iff p i).0 e, same) b,
          )
          | inr e ↦
              let (o', at_i, b') = sound.live i (omega arith) in
              (o', get_elem?-set_ne m.heap p i (some o) (ground arith) ∙ at_i, rw same b')
        ];
      }
