-- ===== src/Main/Ends.antt =====
-- What holds of the stages of `main` where they return, whatever the files, the tracker and the
-- system give.
use btor.Base.{ℕ, ◌≡◌, ◌⊎◌, inl, inr, refl, ap, ◌∙◌, none, some, []}
use btor.Base.{Bytes, codes, length, take, ◌==◌, Bool-cases, Option-cases, ==_iff, if◌then◌else◌}
use btor.Base.Outcome.{ok, Returns, Returns-bind, Returns-eq}
use btor.Announce.{get_server_address, get_announce_path}
use btor.Cursor.{World}
use btor.Files.{
  Files, zeros, read_file, load_bitfield, write_bitfield, create_empty_file, bitfield_file_name,
}
use btor.Files.Laws.{load_bitfield-Loads}
use btor.Main.Connects.{connects, connect_peers-take}
use btor.Main.{System, Session, load_state, connect_peers, shake, finish, announce}
use btor.Memory.{delete_all}
use btor.Metainfo.{BState, get_bitfield_size}
use btor.Peer.{Calls, get_handshake}
use btor.Torrent.{load_torrent}
use btor.Tracker.Counts.{Counted, socket_calls, tracker_response-Counted}
use btor.Tracker.{Tracker, request, start_request, tracker_response}

-- The bitfield is what stood in its file, or what can be read of a new one.
abbrev pub Origin : (ℕ → ℕ) → Bytes → Files → BState → Type 0
Origin to_double name files state =
    (files.contents name ≡ some state.bitfield)
    ⊎ (files.contents name ≡ none)
      × ((n : ℕ) × (get_bitfield_size to_double state.metainfo ≡ ok n)
          × (state.bitfield ≡ (if files.writable name then zeros n else [])))

-- The files are as they were, but for a new bitfield file.
abbrev pub LeftBy : Bytes → Files → Files → Type 0
LeftBy name files files' = (files' ≡ files) ⊎ ((n : ℕ) × (files' ≡ create_empty_file name n files))

-- What `load_state` gives.
abbrev pub Loaded : System → BState → Files → BState × Files × World → Type 0
Loaded sys state files (state', files', w) =
    (state'.filename ≡ state.filename)
    × Origin sys.to_double (bitfield_file_name state.filename) files state'
    × LeftBy (bitfield_file_name state.filename) files files'
    × ((text : Bytes) × (files.contents state.filename ≡ some text))

-- What a session holds, from the state and the files that it was started with.
abbrev pub Ended : BState → Files → Session → Type 0
Ended state files s =
    (length (get_handshake s.state) ≡ 68)
    × (s.state ≡ state)
    × (s.files ≡ write_bitfield (bitfield_file_name state.filename) state files)
    × (length s.tracker.bpeers ≡ length s.tracker.peers)
    × (s.calls ≡ connects (take 6 s.tracker.bpeers) (socket_calls (length s.tracker.peers) []))

shake-ok :
    (state : BState) (hands : Bytes) → shake state ≡ ok hands → length (get_handshake state) ≡ 68
unfolding shake
shake-ok state hands e = elim (Bool-cases (length (get_handshake state) == 68)) [
  | inl whole ↦ (==_iff _ 68).0 whole
  | inr cut ↦ absurd (cc (rw cut at e))
]

read_file-ok :
    (name text : Bytes) (files : Files)
    → read_file name files ≡ ok text
    → files.contents name ≡ some text
unfolding read_file
read_file-ok name text files e = elim (Option-cases (files.contents name)) [
  | inl missing ↦ absurd (cc (rw missing at e))
  | inr (bytes, there) ↦ let same : bytes ≡ text = cc (rw there at e) in rw same at there
]

module _ (sys : System) where
  finish-Ended :
      (state : BState) (files : Files) (w : World) (tracker : Tracker) (server path : Bytes)
      (calls : Calls)
      → Counted tracker.peers tracker.bpeers [] calls
      → Returns (Ended state files) (finish sys state files w tracker server path calls)
  unfolding finish
  finish-Ended state files w tracker server path calls counted =
      let P = Ended state files in
      let asked = request sys.client server path state.metainfo state.unique_id (codes "stopped") in
      Returns-bind P (shake state) _ (λ hands shaken.
        Returns-bind P (connect_peers sys.net tracker.bpeers 0 calls) _ (λ calls' connected.
          Returns-bind P (delete_all tracker.peers w.memory) _ (λ m deleted.
            Returns-bind P asked _ (λ response got.
              let six : calls' ≡ connects (take 6 tracker.bpeers) calls =
                cc (connected, connect_peers-take sys.net tracker.bpeers calls) in
              (
                shake-ok state hands shaken,
                refl,
                refl,
                counted.0,
                six ∙ ap (connects (take 6 tracker.bpeers)) counted.1,
              )))))

  pub announce-Ended :
      (state : BState) (files : Files) (w : World)
      → Returns (Ended state files) (announce sys state files w)
  unfolding announce
  announce-Ended state files w =
      let P = Ended state files in
      Returns-bind P (get_server_address sys.size_bits state.metainfo.announce) _ (λ server _.
        Returns-bind P (get_announce_path sys.size_bits state.metainfo.announce) _ (λ path _.
          Returns-bind P (start_request sys.client server path state.metainfo state.unique_id) _
            (λ response _.
              Returns-bind P (tracker_response sys.net response w []) _ (λ (tracker, w', calls) got.
                finish-Ended state files w' tracker server path calls (
                  Returns-eq
                    (λ (r : Tracker × World × Calls). Counted (r.0.peers) (r.0.bpeers) [] r.2)
                    (tracker, w', calls) (tracker_response sys.net response w [])
                    (tracker_response-Counted sys.net response w []) got)))))

  pub load_state-Loaded :
      (state : BState) (files : Files) (w : World)
      → Returns (Loaded sys state files) (load_state sys state files w)
  unfolding load_state
  load_state-Loaded state files w =
      let P = Loaded sys state files in
      Returns-bind P (read_file state.filename files) _ (λ file_buf read.
        let text = read_file-ok state.filename file_buf files read in
        Returns-bind P (load_torrent sys.sha1 sys.vector_bytes file_buf w) _ (λ (meta, w') _.
          let state₁ = record state { metainfo = meta } in
          Returns-bind P (load_bitfield sys.to_double state₁ files) _ (λ (state', files') got.
            let (same, origin) = load_bitfield-Loads sys.to_double state₁ state' files files' got in
            let named : state'.filename ≡ state.filename = ap (λ (s : BState). s.filename) same in
            let filled : state'.metainfo ≡ meta = ap (λ (s : BState). s.metainfo) same in
            elim origin [
              | inl (there, kept) ↦ (named, inl there, inl kept, (file_buf, text))
              | inr (missing, (n, sized, made, bits)) ↦ (
                named,
                inr (missing, (n, rw (filled) sized, bits)),
                inr (n, made),
                (file_buf, text),
              )
            ])))
