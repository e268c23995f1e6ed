-- ===== src/Announce/Url.antt =====
-- How `getServerAddress` and `getAnnouncePath` split the announce URL.
use btor.Base.{
  ℕ, suc, ◌+◌, ◌-◌, ◌%◌, ◌^◌, ◌<◌, ◌≡◌, ◌⊎◌, inl, inr, refl, ap, le→ltb_false, false, none, some,
  [], ◌∷◌, ◌++◌, arith,
}
use btor.Base.{
  Bytes, length, length-append, take-append, drop-append_suc, take_all, ltb, ◌==◌, ==_refl,
  ne→==_false, ==_iff, Bool-cases, if◌then◌else◌,
}
use btor.Base.Outcome.{Outcome, ok, exited}
use btor.Announce.{
  find_last, npos, path_seperator_index, substr_from, exit_failure, get_server_address,
  get_announce_path,
}

-- The character does not occur.
abbrev pub IsAbsent : ℕ → Bytes → Type 0
IsAbsent c [] = Unit {0}
IsAbsent c (x ∷ xs) = ((x == c) ≡ false) × IsAbsent c xs

-- The width of `size_t` on the two platforms that the project is built for.
abbrev pub IsWidth : ℕ → Type 0
IsWidth w = (w ≡ 32) ⊎ (w ≡ 64)

find_last-IsAbsent : (c i : ℕ) (xs : Bytes) → IsAbsent c xs → find_last c i xs ≡ none
unfolding find_last
find_last-IsAbsent c i [] h = refl
find_last-IsAbsent c i (x ∷ xs) h = rw (find_last-IsAbsent c (suc i) xs h.1, h.0)

find_last-append :
    (c i : ℕ) (xs ys : Bytes) → IsAbsent c ys → find_last c i (xs ++ c ∷ ys) ≡ some (i + length xs)
unfolding find_last
find_last-append c i [] ys h =
    rw (find_last-IsAbsent c (suc i) ys h, ==_refl c) (ap some (omega arith))
find_last-append c i (x ∷ xs) ys h = rw (find_last-append c (suc i) xs ys h) (ap some (omega arith))

index-found :
    (w : ℕ) (server path : Bytes)
    → IsAbsent b'/' path
    → length server < 2 ^ 32
    → path_seperator_index w (server ++ b'/' ∷ path) ≡ length server
unfolding path_seperator_index
index-found w server path absent small =
    rw (find_last-append b'/' 0 server path absent) (omega arith)

index-missing :
    (w : ℕ) (url : Bytes) → IsWidth w → IsAbsent b'/' url → path_seperator_index w url ≡ 2 ^ 32 - 1
unfolding path_seperator_index
index-missing w url (inl e) absent = rw (find_last-IsAbsent b'/' 0 url absent, e)
index-missing w url (inr e) absent = rw (find_last-IsAbsent b'/' 0 url absent, e)

not_npos : (w n : ℕ) → IsWidth w → n < 2 ^ 32 - 1 → (n == npos w) ≡ false
not_npos w n (inl e) h = rw e (ne→==_false n _ (omega arith))
not_npos w n (inr e) h = rw e (ne→==_false n _ (omega arith))

-- With a `size_t` of 32 or 64 bits, a URL of fewer than 2^32 - 1 characters is split at its last
-- slash: the server address is what stands before it, the announce path what stands behind it, and
-- the slash is in neither.
pub url_split :
    (w : ℕ) (server path : Bytes)
    → IsWidth w
    → IsAbsent b'/' path
    → length (server ++ b'/' ∷ path) < 2 ^ 32 - 1
    → (get_server_address w (server ++ b'/' ∷ path) ≡ ok server)
      × (get_announce_path w (server ++ b'/' ∷ path) ≡ ok path)
unfolding get_server_address get_announce_path substr_from
url_split w server path width absent small =
    let total = length-append server (b'/' ∷ path) in
    let found = index-found w server path absent (omega (arith, total)) in
    let is_found = not_npos w (length server) width (omega (arith, total)) in
    let after : (length server + 1) % 2 ^ 32 ≡ suc (length server) = omega (arith, total) in
    let inside : ltb (length (server ++ b'/' ∷ path)) (suc (length server)) ≡ false =
      le→ltb_false _ _ (omega (arith, total)) in
    (
      rw (found, is_found, take-append server (b'/' ∷ path)),
      rw (found, is_found, after, inside, drop-append_suc server path b'/'),
    )

-- Where a URL of fewer than 2^32 - 1 characters has no slash, both functions exit if `size_t` has
-- 32 bits. If it has 64, the index has been cut to 32 bits and is no longer `npos`: both return the
-- whole URL.
url_no_slash :
    (url : Bytes)
    → IsAbsent b'/' url
    → length url < 2 ^ 32 - 1
    → (get_server_address 32 url ≡ exited exit_failure)
      × (get_announce_path 32 url ≡ exited exit_failure)
      × (get_server_address 64 url ≡ ok url)
      × (get_announce_path 64 url ≡ ok url)
unfolding get_server_address get_announce_path substr_from
url_no_slash url absent small = (
  rw (index-missing 32 url (inl refl) absent),
  rw (index-missing 32 url (inl refl) absent),
  rw (index-missing 64 url (inr refl) absent) (ap ok (take_all (2 ^ 32 - 1) url (omega arith))),
  rw (index-missing 64 url (inr refl) absent) (rw (le→ltb_false (length url) 0 (omega arith))),
)

-- A text has a last slash or none.
data LastSlash (url : Bytes) : Type 0 where
  at_slash :
      (server path : Bytes) → url ≡ server ++ b'/' ∷ path → IsAbsent b'/' path → LastSlash url
  no_slash : IsAbsent b'/' url → LastSlash url

last_slash : (url : Bytes) → LastSlash url
last_slash [] = no_slash tt
last_slash (c ∷ cs) = elim (last_slash cs) [
  | at_slash server path e absent ↦ at_slash (c ∷ server) path (ap (λ (x : Bytes). c ∷ x) e) absent
  | no_slash absent ↦ elim (Bool-cases (c == b'/')) [
    | inl e ↦ at_slash [] cs (ap (λ (x : ℕ). x ∷ cs) ((==_iff c b'/').0 e)) absent
    | inr e ↦ no_slash (e, absent)
  ]
]

-- What both functions give on a URL without a slash.
abbrev pub without_slash : ℕ → Bytes → Outcome Bytes
without_slash w url = if w == 32 then exited exit_failure else ok url

-- With a `size_t` of 32 or 64 bits, on every URL of fewer than 2^32 - 1 characters: if it has a
-- slash, the server address is what stands before the last one, and the announce path what stands
-- behind it, with no slash in it. If it has none, both functions exit where `size_t` has 32 bits;
-- where it has 64, the index has been cut to 32 bits and is no longer `npos`, and both return the
-- whole URL.
pub url_parts :
    (w : ℕ) (url : Bytes)
    → IsWidth w
    → length url < 2 ^ 32 - 1
    → ((server path : Bytes) × (url ≡ server ++ b'/' ∷ path)
        × IsAbsent b'/' path
        × (get_server_address w url ≡ ok server)
        × (get_announce_path w url ≡ ok path))
      ⊎ (IsAbsent b'/' url
          × (get_server_address w url ≡ without_slash w url)
          × (get_announce_path w url ≡ without_slash w url))
url_parts w url width small = elim (last_slash url) [
  | at_slash server path e absent ↦
      let (address, announce) = url_split w server path width absent (rw e at small) in
      inl (server, path, e, absent, rw e address, rw e announce)
  | no_slash absent ↦
      let (address32, path32, address64, path64) = url_no_slash url absent small in
      elim width [
        | inl e ↦ inr (absent, rw e address32, rw e path32)
        | inr e ↦ inr (absent, rw e address64, rw e path64)
      ]
]
