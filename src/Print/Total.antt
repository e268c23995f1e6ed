-- ===== src/Print/Total.antt =====
-- Printing a sound object ends and gives a text.
use btor.Base.{ℕ, zero, suc, ◌+◌, ◌<◌, ◌≡◌, refl, Bool, true, false, List, [], ◌∷◌, ◌++◌, arith}
use btor.Base.{Bytes, codes}
use btor.Base.Outcome.{Outcome, ok}
use btor.Cursor.{World}
use btor.Memory.Sound.{IsSound, AllBetween, ValuesBetween, PointsBehind, deref-IsSound}
use btor.Memory.{Memory, next}
use btor.Object.Dict.{Ptr, Dictionary}
use btor.Object.{
  Kind, BObject, b_string, b_integer, b_list, b_dict, b_null, get_int, get_string, get_list,
  get_dict,
}
use btor.Parser.Keeps.{parse_bencoded_string-IsSound}
use btor.Parser.{parse_bencoded_string}
use btor.Base.Decimal.{decimal_int}
use btor.Print.{separator, quoted, print_items, print_entries, print_as, print_object}

-- The result is a text.
abbrev Prints : Outcome Bytes → Type 0
Prints r = (s : Bytes) × (r ≡ ok s)

module _ (print : Ptr → Outcome Bytes) (low high : ℕ)
    (each : (q : Ptr) → low < q → q < high → Prints (print q)) where
  print_items-Prints :
      (first : Bool) (qs : List Ptr) → AllBetween low high qs → Prints (print_items print first qs)
  unfolding print_items
  print_items-Prints first [] h = ([], refl)
  print_items-Prints first (q ∷ qs) h =
      let (s, e) = each q h.0.0 h.0.1 in
      let (t, e') = print_items-Prints false qs h.1 in (separator first ++ (s ++ t), rw (e, e'))

  print_entries-Prints :
      (first : Bool) (d : Dictionary)
      → ValuesBetween low high d
      → Prints (print_entries print first d)
  unfolding print_entries
  print_entries-Prints first [] h = ([], refl)
  print_entries-Prints first ((k, q) ∷ d) h =
      let (s, e) = each q h.0.0 h.0.1 in
      let (t, e') = print_entries-Prints false d h.1 in
      (separator first ++ (quoted k ++ (codes ": " ++ (s ++ t))), rw (e, e'))

  print_as-Prints :
      (k : Kind) (o : BObject) → o.kind ≡ k → PointsBehind low high o → Prints (print_as k print o)
  unfolding print_as get_int get_string get_list get_dict
  print_as-Prints b_integer o e h = (decimal_int o.int_val, rw e)
  print_as-Prints b_string o e h = (quoted o.string_val, rw e)
  print_as-Prints b_list o e h =
      let (s, e') = print_items-Prints true o.list_val h.0 in (b'[' ∷ (s ++ b']' ∷ []), rw (e, e'))
  print_as-Prints b_dict o e h =
      let (s, e') = print_entries-Prints true o.dict_val h.1 in
      (b'{' ∷ (s ++ b'}' ∷ []), rw (e, e'))
  print_as-Prints b_null o e h = (codes "BNull", refl)

print_object-Prints :
    (f : ℕ) (m : Memory) (p : Ptr)
    → IsSound m
    → p < next m
    → next m < f + p + 1
    → Prints (print_object f m p)
unfolding print_object
print_object-Prints zero m p sound lt enough = absurd (omega arith)
print_object-Prints (suc f) m p sound lt enough =
    let (o, e, b) = deref-IsSound m sound p lt in
    let (s, e') =
      print_as-Prints (print_object f m) p (next m)
        (λ q behind below. print_object-Prints f m q sound below (omega arith)) o.kind o refl b in
    (s, rw e e')

-- What a parse returns can be printed, whatever the text was: `operator<<` on the pointer ends and
-- gives a text, when it may go as deep as there are objects.
pub print_object-parse :
    (to_parse : Bytes) (w : World) (p : Ptr) (w' : World)
    → IsSound w.memory
    → parse_bencoded_string to_parse w ≡ ok (p, w')
    → (s : Bytes) × (print_object (next w'.memory) w'.memory p ≡ ok s)
print_object-parse to_parse w p w' sound e =
    let (sound', from, lt) = parse_bencoded_string-IsSound to_parse w p w' sound e in
    print_object-Prints (next w'.memory) w'.memory p sound' lt (omega arith)
