-- ===== src/Memory.antt =====
-- `BMemoryManager` of btor/bencode.h and btor/bencode.cpp, over the heap of the objects that it
-- allocates. An address is an index into `heap`; a cell is `none` once it has been deleted.
pub mod Amend
pub mod Build
pub mod Denotes
pub mod Built
pub mod Sound
pub mod Lookup
pub mod Typed
pub mod Destroyed
pub mod Erased
use btor.Base.{Option, none, some, List, [], ◌∷◌, ◌++◌, length, get_elem?, set}
use btor.Base.Outcome.{Outcome, ok, undefined, bind}
use btor.Object.Dict.{Ptr}
use btor.Object.{BObject}

abbrev pub Heap : Type 0
Heap = List (Option BObject)

pub record Memory : Type 0 where
  pub heap : Heap
  pub objects : List Ptr

-- `BMemoryManager()`
abbrev pub new_memory : Memory
new_memory = record { heap = []; objects = [] }

-- what `new` returns next
abbrev pub next : Memory → Ptr
next m = length m.heap

-- `getNewBObject`, after the constructor has built the object.
unfoldable pub get_new_bobject : BObject → Memory → Ptr × Memory
get_new_bobject obj m =
    (next m, record { heap = m.heap ++ some obj ∷ []; objects = m.objects ++ next m ∷ [] })

-- `*p`: a cell that is not allocated, or deleted, is undefined behaviour.
live : Option (Option BObject) → Outcome BObject
live (some (some o)) = ok o
live _ = undefined

unfoldable pub deref : Ptr → Memory → Outcome BObject
unfolding live
deref p m = live (get_elem? m.heap p)

unfoldable pub store : Ptr → BObject → Memory → Memory
store p o m = record m { heap = set m.heap p (some o) }

-- `delete p`
unfoldable pub delete : Ptr → Memory → Outcome Memory
unfolding deref
delete p m = bind (deref p m) λ o. ok (record m { heap = set m.heap p none })

unfoldable pub delete_all : List Ptr → Memory → Outcome Memory
delete_all [] m = ok m
delete_all (p ∷ ps) m = bind (delete p m) (delete_all ps)

-- `~BMemoryManager()`
unfoldable pub destroy : Memory → Outcome Memory
unfolding delete_all
destroy m = delete_all m.objects m
