-- ===== src/Memory/Amend.antt =====
-- An object changed in place, and which cells that leaves alone.
use btor.Base.{zero, suc, ◌<◌, ◌≡◌, ◌≢◌, refl, ap, Option, none, some, [], ◌∷◌, arith}
use btor.Base.{
  length, get_elem?, set, length-append, get_elem?-append_left, get_elem?-some_lt,
  get_elem?-append_end,
}
use btor.Base.Outcome.{Outcome, ok, out_of_fuel}
use btor.Cursor.{World, update}
use btor.Memory.{live, Heap, Memory, next, get_new_bobject, deref, store}
use btor.Object.Dict.{Ptr}
use btor.Object.{Kind, BObject}

unfoldable pub modify : Ptr → (BObject → BObject) → Heap → Heap
modify p g [] = []
modify zero g (none ∷ h) = none ∷ h
modify zero g (some o ∷ h) = some (g o) ∷ h
modify (suc p) g (c ∷ h) = c ∷ modify p g h

abbrev pub amend : Ptr → (BObject → BObject) → Memory → Memory
amend p g m = record m { heap = modify p g m.heap }

pub length-modify : (p : Ptr) (g : BObject → BObject) (h : Heap) → length (modify p g h) ≡ length h
unfolding modify
length-modify p g [] = refl
length-modify zero g (none ∷ h) = refl
length-modify zero g (some o ∷ h) = refl
length-modify (suc p) g (c ∷ h) = ap suc (length-modify p g h)

pub get_elem?-modify_self :
    (p : Ptr) (g : BObject → BObject) (h : Heap) {o : BObject}
    → get_elem? h p ≡ some (some o)
    → get_elem? (modify p g h) p ≡ some (some (g o))
unfolding modify
get_elem?-modify_self p g [] e = cc
get_elem?-modify_self zero g (none ∷ h) e = cc
get_elem?-modify_self zero g (some o ∷ h) e = ground arith
get_elem?-modify_self (suc p) g (c ∷ h) e = get_elem?-modify_self p g h e

pub get_elem?-modify_ne :
    (p i : Ptr) (g : BObject → BObject) (h : Heap)
    → i ≢ p
    → get_elem? (modify p g h) i ≡ get_elem? h i
unfolding modify
get_elem?-modify_ne p i g [] ne = refl
get_elem?-modify_ne zero zero g (none ∷ h) ne = refl
get_elem?-modify_ne zero zero g (some o ∷ h) ne = absurd (ne refl)
get_elem?-modify_ne zero (suc i) g (none ∷ h) ne = refl
get_elem?-modify_ne zero (suc i) g (some o ∷ h) ne = refl
get_elem?-modify_ne (suc p) zero g (c ∷ h) ne = refl
get_elem?-modify_ne (suc p) (suc i) g (c ∷ h) ne = get_elem?-modify_ne p i g h (λ e. ne (ap suc e))

set-modify :
    (p : Ptr) (g : BObject → BObject) (h : Heap) {o : BObject}
    → get_elem? h p ≡ some (some o)
    → set h p (some (g o)) ≡ modify p g h
unfolding modify
set-modify p g [] e = refl
set-modify zero g (none ∷ h) e = cc
set-modify zero g (some o ∷ h) e = ground arith
set-modify (suc p) g (c ∷ h) e = ap (◌∷◌ c) (set-modify p g h e)

-- A live object of this kind stands at `p`.
pub record Open (k : Kind) (p : Ptr) (m : Memory) : Type 0 where
  pub object : BObject
  pub found : get_elem? m.heap p ≡ some (some object)
  pub of_that_kind : object.kind ≡ k

module _ {k : Kind} {p : Ptr} {m : Memory} (here : Open k p m) where
  pub deref-Open : deref p m ≡ ok here.object
  unfolding deref
  deref-Open = rw here.found

  pub Open-lt : p < length m.heap
  Open-lt = get_elem?-some_lt m.heap p here.found

  pub Open-amend :
      (g : BObject → BObject) → ((o : BObject) → (g o).kind ≡ o.kind) → Open k p (amend p g m)
  Open-amend g same = record {
    object = g here.object;
    found = get_elem?-modify_self p g m.heap here.found;
    of_that_kind = rw (same here.object) here.of_that_kind;
  }

  pub store-Open : (g : BObject → BObject) → store p (g here.object) m ≡ amend p g m
  unfolding store
  store-Open g = rw (set-modify p g m.heap here.found)

-- A method that succeeds on the object at `p` changes it there.
pub update-Open :
    {k : Kind} {p : Ptr} (f : BObject → Outcome BObject) (g : BObject → BObject) (w : World)
    → (here : Open k p w.memory) → f here.object ≡ ok (g here.object)
    → update p f w ≡ ok (tt, record w { memory = amend p g w.memory })
unfolding update
update-Open f g w here e = rw (deref-Open here, e, store-Open here g)

-- A new object stands at the end of the heap and changes no other.
module _ (o : BObject) (m : Memory) where
  pub get_new-Open : Open o.kind (next m) (get_new_bobject o m).1
  unfolding get_new_bobject
  get_new-Open = record {
    object = o;
    found = get_elem?-append_end m.heap (some o);
    of_that_kind = refl;
  }

  pub length-get_new : length (get_new_bobject o m).1.heap ≡ suc (next m)
  unfolding get_new_bobject
  length-get_new = omega (arith, length-append m.heap (some o ∷ []))

  pub get_elem?-get_new :
      (i : Ptr) → i < next m → get_elem? (get_new_bobject o m).1.heap i ≡ get_elem? m.heap i
  unfolding get_new_bobject
  get_elem?-get_new i h = get_elem?-append_left m.heap (some o ∷ []) i h

  pub deref-get_new : deref (next m) (get_new_bobject o m).1 ≡ ok o
  unfolding deref get_new_bobject
  deref-get_new = rw (get_elem?-append_end m.heap (some o))

live-ne : (c : Option (Option BObject)) → live c ≢ out_of_fuel
unfolding live
live-ne none = cc
live-ne (some none) = cc
live-ne (some (some o)) = cc

pub deref-ne : (p : Ptr) (m : Memory) → deref p m ≢ out_of_fuel
unfolding deref
deref-ne p m = live-ne (get_elem? m.heap p)
