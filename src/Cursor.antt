-- ===== src/Cursor.antt =====
-- The state of `BParser` (btor/bencode.h) with the memory that it allocates in, commands on it, and
-- `consumeChar` and `peekChar` of btor/bencode.cpp. A byte is a number below 256; the parser compares
-- characters with ASCII letters and digits only, so it does not matter whether `char` is signed.
pub mod Sees
use btor.Base.{ℕ, ◌+◌, ◌%◌, ◌^◌, Bool, false, Option, none, some, [], ◌∷◌, ◌++◌}
use btor.Base.{Bytes, get_elem?, if◌then◌else◌}
use btor.Base.Int.{ℤ, pos}
use btor.Base.Outcome.{Outcome, ok, raised, out_of_range, undefined}
use btor.Base.Outcome
use btor.Memory.{Memory, new_memory, get_new_bobject, deref, store}
use btor.Object.Dict.{Ptr}
use btor.Object.{BObject}

pub record BParser : Type 0 where
  pub cursor : ℕ
  pub parse_buf : Bytes
  pub collect_info_dict : Bool
  pub collected_length : ℤ
  pub collected_info_dict : Bytes

-- `BParser()`, and the default member initialisers.
abbrev pub new_parser : BParser
new_parser = record {
  cursor = 0;
  parse_buf = [];
  collect_info_dict = false;
  collected_length = pos 0;
  collected_info_dict = [];
}

pub record World : Type 0 where
  pub parser : BParser
  pub memory : Memory

abbrev pub new_world : World
new_world = record { parser = new_parser; memory = new_memory }

abbrev pub Cmd : Type 0 → Type 0
Cmd A = World → Outcome (A × World)

abbrev pub pure : {A : Type 0} → A → Cmd A
pure a w = ok (a, w)

abbrev pub lift : {A : Type 0} → Outcome A → Cmd A
lift r w = Outcome.bind r λ a. ok (a, w)

module _ {A B : Type 0} where
  infixl 1 ◌>>=◌ ◌>>◌
  abbrev pub ◌>>=◌ : Cmd A → (A → Cmd B) → Cmd B
  m >>= f = λ w. Outcome.bind (m w) λ (a, w'). f a w'

  abbrev pub ◌>>◌ : Cmd A → Cmd B → Cmd B
  m >> n = m >>= λ _. n

abbrev pub run {ℓ} : {A : Type ℓ} → World → (World → A) → A
run w m = m w

-- `++cursor` on an `unsigned int`
abbrev pub next_cursor : ℕ → ℕ
next_cursor n = (n + 1) % 2 ^ 32

-- The parser after the character at the cursor has been taken.
unfoldable pub taken : ℕ → BParser → BParser
taken c p = record p {
  collected_info_dict =
      if p.collect_info_dict then p.collected_info_dict ++ c ∷ [] else p.collected_info_dict;
  cursor = next_cursor p.cursor;
}

-- what `at` returned: `none` beyond the end
take_char : Option ℕ → Cmd ℕ
take_char none w = raised out_of_range
take_char (some c) w = ok (c, record w { parser = taken c w.parser })

unfoldable pub consume_char : Cmd ℕ
unfolding take_char
consume_char w = take_char (get_elem? w.parser.parse_buf w.parser.cursor) w

look : Option ℕ → Cmd ℕ
look none w = raised out_of_range
look (some c) w = ok (c, w)

unfoldable pub peek_char : Cmd ℕ
unfolding look
peek_char w = look (get_elem? w.parser.parse_buf w.parser.cursor) w

-- `_bMemoryManager->getNewBObject(...)`
unfoldable pub alloc : BObject → Cmd Ptr
alloc o w = let (p, m) = get_new_bobject o w.memory in ok (p, record w { memory = m })

-- `p->m(...)` for a method that changes the object
unfoldable pub update : Ptr → (BObject → Outcome BObject) → Cmd (Unit {0})
update p f w =
    Outcome.bind (deref p w.memory)
      λ o. Outcome.bind (f o) λ o'. ok (tt, record w { memory = store p o' w.memory })

-- `p->m()` for a `const` method
unfoldable pub query : {A : Type 0} → Ptr → (BObject → Outcome A) → Cmd A
query p f w = Outcome.bind (deref p w.memory) λ o. Outcome.bind (f o) λ a. ok (a, w)
