-- ===== src/Memory/Build.antt =====
-- The objects of a value, as the parser allocates them: a container first, then what it holds.
use btor.Base.{◌≤◌, ◌<◌, ◌≡◌, ◌≢◌, refl, [], ◌∷◌, ◌++◌, ◌∙◌, arith}
use btor.Base.{Bytes, get_elem?}
use btor.Bencode.{Value, Items, Fields, int, str, list, dict, no_items, item, no_fields, field}
use btor.Memory.Amend.{
  amend, Open, Open-lt, length-modify, get_elem?-modify_ne, length-get_new, get_elem?-get_new,
}
use btor.Memory.{Memory, next, get_new_bobject}
use btor.Object.Dict.{Ptr, insert}
use btor.Object.{Kind, BObject, b_list, b_dict, of_kind, of_int, of_string}

-- what `pushBack` and `addKeyValue` make of a list and of a dictionary
abbrev pub pushed : Ptr → BObject → BObject
pushed q o = record o { list_val = o.list_val ++ q ∷ [] }

abbrev pub added : Bytes → Ptr → BObject → BObject
added k q o = record o { dict_val = insert k q o.dict_val }

abbrev pub created : BObject → Memory → Memory
created o m = (get_new_bobject o m).1

unfoldable mutual
  pub build : Value → Memory → Memory
  build (int i) m = created (of_int i) m
  build (str b) m = created (of_string b) m
  build (list xs) m = build_items xs (next m) (created (of_kind b_list) m)
  build (dict fs) m = build_fields fs (next m) (created (of_kind b_dict) m)

  pub build_items : Items → Ptr → Memory → Memory
  build_items no_items p m = m
  build_items (item v xs) p m = build_items xs p (amend p (pushed (next m)) (build v m))

  pub build_fields : Fields → Ptr → Memory → Memory
  build_fields no_fields p m = m
  build_fields (field k v fs) p m = build_fields fs p (amend p (added k (next m)) (build v m))

mutual
  unfolding build

  pub length-build : (v : Value) (m : Memory) → next m < next (build v m)
  length-build (int i) m = omega (arith, length-get_new (of_int i) m)
  length-build (str b) m = omega (arith, length-get_new (of_string b) m)
  length-build (list xs) m = omega (
    arith,
    length-get_new (of_kind b_list) m,
    length-build_items xs (next m) (created (of_kind b_list) m),
  )
  length-build (dict fs) m = omega (
    arith,
    length-get_new (of_kind b_dict) m,
    length-build_fields fs (next m) (created (of_kind b_dict) m),
  )

  length-build_items : (xs : Items) (p : Ptr) (m : Memory) → next m ≤ next (build_items xs p m)
  length-build_items no_items p m = omega arith
  length-build_items (item v xs) p m = omega (
    arith,
    length-build v m,
    length-modify p (pushed (next m)) (build v m).heap,
    length-build_items xs p (amend p (pushed (next m)) (build v m)),
  )

  length-build_fields : (fs : Fields) (p : Ptr) (m : Memory) → next m ≤ next (build_fields fs p m)
  length-build_fields no_fields p m = omega arith
  length-build_fields (field k v fs) p m = omega (
    arith,
    length-build v m,
    length-modify p (added k (next m)) (build v m).heap,
    length-build_fields fs p (amend p (added k (next m)) (build v m)),
  )

mutual
  unfolding build

  frame-build :
      (v : Value) (m : Memory) (i : Ptr)
      → i < next m
      → get_elem? (build v m).heap i ≡ get_elem? m.heap i
  frame-build (int n) m i h = get_elem?-get_new (of_int n) m i h
  frame-build (str b) m i h = get_elem?-get_new (of_string b) m i h
  frame-build (list xs) m i h =
      frame-build_items xs (next m) (created (of_kind b_list) m) i
        (omega (arith, length-get_new (of_kind b_list) m)) (omega arith)
      ∙ get_elem?-get_new (of_kind b_list) m i h
  frame-build (dict fs) m i h =
      frame-build_fields fs (next m) (created (of_kind b_dict) m) i
        (omega (arith, length-get_new (of_kind b_dict) m)) (omega arith)
      ∙ get_elem?-get_new (of_kind b_dict) m i h

  pub frame-build_items :
      (xs : Items) (p : Ptr) (m : Memory) (i : Ptr)
      → i < next m
      → i ≢ p
      → get_elem? (build_items xs p m).heap i ≡ get_elem? m.heap i
  frame-build_items no_items p m i h ne = refl
  frame-build_items (item v xs) p m i h ne =
      let m' = build v m in
      frame-build_items xs p (amend p (pushed (next m)) m') i
        (omega (arith, length-build v m, length-modify p (pushed (next m)) m'.heap)) ne
      ∙ get_elem?-modify_ne p i (pushed (next m)) m'.heap ne
      ∙ frame-build v m i h

  pub frame-build_fields :
      (fs : Fields) (p : Ptr) (m : Memory) (i : Ptr)
      → i < next m
      → i ≢ p
      → get_elem? (build_fields fs p m).heap i ≡ get_elem? m.heap i
  frame-build_fields no_fields p m i h ne = refl
  frame-build_fields (field k v fs) p m i h ne =
      let m' = build v m in
      frame-build_fields fs p (amend p (added k (next m)) m') i
        (omega (arith, length-build v m, length-modify p (added k (next m)) m'.heap)) ne
      ∙ get_elem?-modify_ne p i (added k (next m)) m'.heap ne
      ∙ frame-build v m i h

-- An object that was there stays as it was.
pub build-frame :
    (v : Value) (m : Memory) (i : Ptr)
    → i < next m
    → get_elem? (build v m).heap i ≡ get_elem? m.heap i
build-frame = frame-build

pub Open-build : {k : Kind} {p : Ptr} {m : Memory} (v : Value) → Open k p m → Open k p (build v m)
Open-build {p} {m} v here = record {
  object = here.object;
  found = frame-build v m p (Open-lt here) ∙ here.found;
  of_that_kind = here.of_that_kind;
}
