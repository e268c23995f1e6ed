-- ===== src/Memory/Built.antt =====
-- `build` makes the value it is given.
use btor.Base.{
  ℕ, suc, ◌≤◌, ◌<◌, ◌≡◌, refl, List, some, [], ◌∷◌, ◌++◌, ◌∙◌, arith, append-nil, append_assoc,
}
use btor.Base.{get_elem?, get_elem?-append_end}
use btor.Bencode.{Value, Items, Fields, int, str, list, dict, no_items, item, no_fields, field}
use btor.Memory.Amend.{
  amend, length-modify, get_elem?-modify_ne, get_elem?-modify_self, length-get_new,
}
use btor.Memory.Build.{
  build, build_items, build_fields, pushed, added, created, length-build, frame-build_items,
  frame-build_fields, build-frame,
}
use btor.Memory.Denotes.{
  Denotes, DenotesItems, DenotesFields, Denotes-keep, DenotesItems-keep, DenotesFields-keep,
  DenotesItems-AllAbove, dictionary_of,
}
use btor.Memory.{Memory, next, get_new_bobject}
use btor.Object.Dict.{Ptr, Dictionary, insert}
use btor.Object.{BObject, b_list, b_dict, of_kind, of_int, of_string, of_list, of_dict}

created-holds : (o : BObject) (m : Memory) → get_elem? (created o m).heap (next m) ≡ some (some o)
unfolding get_new_bobject
created-holds o m = get_elem?-append_end m.heap (some o)

-- What the loops leave: the container at `p`, with the new elements behind the old ones.
abbrev ListAt : Memory → ℕ → Ptr → List Ptr → Items → Type 0
ListAt m low p ps xs =
    (qs : List Ptr) × (get_elem? m.heap p ≡ some (some (of_list (ps ++ qs))))
    × DenotesItems m low qs xs

abbrev DictAt : Memory → ℕ → Ptr → Dictionary → Fields → Type 0
DictAt m low p d fs =
    (qs : List Ptr) × (get_elem? m.heap p ≡ some (some (of_dict (dictionary_of fs qs d))))
    × DenotesFields m low qs fs

mutual
  unfolding build Denotes

  build_value-Denotes : (v : Value) (m : Memory) → Denotes (build v m) (next m) (next m) v
  build_value-Denotes (int i) m = (omega arith, created-holds (of_int i) m)
  build_value-Denotes (str b) m = (omega arith, created-holds (of_string b) m)
  build_value-Denotes (list xs) m =
      let (qs, at_p, all) =
        build_items-ListAt xs (next m) (created (of_kind b_list) m) (suc (next m)) []
          (created-holds (of_kind b_list) m) (omega arith)
          (omega (arith, length-get_new (of_kind b_list) m)) in
      let m' = build (list xs) m in
      let down =
        DenotesItems-keep m' m' (suc (next m)) (next m) (omega arith) (λ i a b. refl) xs qs in
      (qs, (omega arith, at_p), down all)
  build_value-Denotes (dict fs) m =
      let (qs, at_p, all) =
        build_fields-DictAt fs (next m) (created (of_kind b_dict) m) (suc (next m)) []
          (created-holds (of_kind b_dict) m) (omega arith)
          (omega (arith, length-get_new (of_kind b_dict) m)) in
      let m' = build (dict fs) m in
      let down =
        DenotesFields-keep m' m' (suc (next m)) (next m) (omega arith) (λ i a b. refl) fs qs in
      (qs, (omega arith, at_p), down all)

  build_items-ListAt :
      (xs : Items) (p : Ptr) (m : Memory) (low : ℕ) (ps : List Ptr)
      → get_elem? m.heap p ≡ some (some (of_list ps))
      → p < low
      → low ≤ next m
      → ListAt (build_items xs p m) low p ps xs
  build_items-ListAt no_items p m low ps h lt le = ([], rw append-nil h, tt)
  build_items-ListAt (item v xs) p m low ps h lt le =
      let m₁ = build v m in
      let m₂ = amend p (pushed (next m)) m₁ in
      let m₃ = build_items xs p m₂ in
      let long : next m₂ ≡ next m₁ = length-modify p (pushed (next m)) m₁.heap in
      let grown = length-build v m in
      let at_p : get_elem? m₂.heap p ≡ some (some (of_list (ps ++ next m ∷ []))) =
        get_elem?-modify_self p (pushed (next m)) m₁.heap (build-frame v m p (omega arith) ∙ h) in
      let (qs, at_p', all) =
        build_items-ListAt xs p m₂ (suc (next m)) (ps ++ next m ∷ []) at_p (omega arith)
          (omega arith) in
      let down =
        DenotesItems-keep m₃ m₃ (suc (next m)) low (omega arith) (λ i a b. refl) xs qs all in
      let above = DenotesItems-AllAbove m₃ (suc (next m)) (next m) xs qs (omega arith) all in
      let kept = λ (i : Ptr) (a : next m ≤ i) (b : i < next m₁).
        frame-build_items xs p m₂ i (omega arith) (omega arith)
        ∙ get_elem?-modify_ne p i (pushed (next m)) m₁.heap (omega arith) in
      let first = Denotes-keep m₁ m₃ (next m) low le kept v (next m) (build_value-Denotes v m) in
      (next m ∷ qs, rw append_assoc at at_p', (first, down, above))

  build_fields-DictAt :
      (fs : Fields) (p : Ptr) (m : Memory) (low : ℕ) (d : Dictionary)
      → get_elem? m.heap p ≡ some (some (of_dict d))
      → p < low
      → low ≤ next m
      → DictAt (build_fields fs p m) low p d fs
  build_fields-DictAt no_fields p m low d h lt le = ([], h, tt)
  build_fields-DictAt (field k v fs) p m low d h lt le =
      let m₁ = build v m in
      let m₂ = amend p (added k (next m)) m₁ in
      let m₃ = build_fields fs p m₂ in
      let long : next m₂ ≡ next m₁ = length-modify p (added k (next m)) m₁.heap in
      let grown = length-build v m in
      let at_p : get_elem? m₂.heap p ≡ some (some (of_dict (insert k (next m) d))) =
        get_elem?-modify_self p (added k (next m)) m₁.heap (build-frame v m p (omega arith) ∙ h) in
      let (qs, at_p', all) =
        build_fields-DictAt fs p m₂ low (insert k (next m) d) at_p lt (omega arith) in
      let kept = λ (i : Ptr) (a : next m ≤ i) (b : i < next m₁).
        frame-build_fields fs p m₂ i (omega arith) (omega arith)
        ∙ get_elem?-modify_ne p i (added k (next m)) m₁.heap (omega arith) in
      let first = Denotes-keep m₁ m₃ (next m) low le kept v (next m) (build_value-Denotes v m) in
      (next m ∷ qs, at_p', (first, all))

-- The objects that `build` allocates, from the next address on, make up the value.
pub build-Denotes : (v : Value) (m : Memory) → Denotes (build v m) (next m) (next m) v
build-Denotes = build_value-Denotes
