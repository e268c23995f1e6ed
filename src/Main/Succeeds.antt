-- ===== src/Main/Succeeds.antt =====
-- Every run of `main` that gets to its `exit(EXIT_SUCCESS)`.
use btor.Base.{◌≡◌, ◌≢◌, inl, inr, refl, ◌∙◌, ◌&&◌, some, [], arith}
use btor.Base.{Bytes, codes, length, take, bytes_eq, ◌==◌, Bool-cases, ==_iff, if◌then◌else◌}
use btor.Base.Outcome.{ok, Returns, Returns-bind, Returns-eq, Returns-map}
use btor.Announce.{generate_id}
use btor.Cursor.{new_world}
use btor.Files.{Files, write_bitfield}
use btor.Files.Laws.{contents-write_bitfield, write_bitfield-create_empty_file}
use btor.Main.Connects.{connects}
use btor.Main.Ends.{Origin, LeftBy, Loaded, Ended, announce-Ended, load_state-Loaded}
use btor.Main.{System, Session, generated, initialise, load_state, announce, main_program}
use btor.Metainfo.{BState}
use btor.Peer.{get_handshake}
use btor.Sock.{BSock, new_sock}
use btor.Tracker.Counts.{socket_calls}

module _ (sys : System) where
  -- Up to `generateId` the state has its file name, and the handler has been set.
  initialise-Returns :
      Returns
        (λ (state : BState). (state.filename ≡ codes "ubuntu2010.torrent") × (sys.set_handler ≢ 0))
        (initialise sys)
  unfolding initialise
  initialise-Returns =
      let P =
        λ (state : BState). (state.filename ≡ codes "ubuntu2010.torrent") × (sys.set_handler ≢ 0) in
      elim (Bool-cases (sys.set_handler == 0)) [
        | inl refused ↦ rw refused tt
        | inr set ↦
            let away : sys.set_handler ≢ 0 = ground arith in
            rw set (Returns-bind P (generated (generate_id sys.rands)) _ (λ id _. (refl, away)))
      ]

  new_sock-ok : (sock : BSock) → (new_sock sys.sock []).0 ≡ ok sock → sys.sock.on_startup [] ≡ 0
  unfolding new_sock
  new_sock-ok sock e = elim (Bool-cases (sys.sock.on_startup [] == 0)) [
    | inl up ↦ (==_iff _ 0).0 up
    | inr down ↦ absurd (cc (rw down at e))
  ]

  module _ (files : Files) where
    -- What the program needs to get to its end, and what it then holds.
    abbrev Finished : Session → Type 0
    Finished s =
        (sys.sock.on_startup [] ≡ 0)
        × (sys.set_handler ≢ 0)
        × ((text : Bytes) × (files.contents (codes "ubuntu2010.torrent") ≡ some text))
        × Origin sys.to_double (codes "ubuntu2010.torrentbf") files s.state
        × ((files' : Files) × LeftBy (codes "ubuntu2010.torrentbf") files files'
            × Ended s.state files' s)
        × (s.state.filename ≡ codes "ubuntu2010.torrent")

    main_program-Finished : Returns Finished (main_program sys files)
    unfolding main_program
    main_program-Finished = Returns-bind Finished (new_sock sys.sock []).0 _ (λ sock opened.
        Returns-bind Finished (initialise sys) _ (λ state started.
          Returns-bind Finished (load_state sys state files new_world) _
            (λ (state', files', w) loads.
              let (at, set) =
                Returns-eq
                  (λ (state : BState).
                    (state.filename ≡ codes "ubuntu2010.torrent") × (sys.set_handler ≢ 0))
                  state (initialise sys) initialise-Returns started in
              let (named, origin, left, text) =
                Returns-eq (Loaded sys state files) (state', files', w)
                  (load_state sys state files new_world)
                  (load_state-Loaded sys state files new_world) loads in
              Returns-map (Ended state' files') Finished (announce sys state' files' w)
                (λ s (shaken, same, written, counted, called). (
                  new_sock-ok sock opened,
                  set,
                  rw at at text,
                  rw same (rw at at origin),
                  (files', rw at at left, (shaken, refl, rw same written, counted, called)),
                  rw same (named ∙ at),
                ))
                (announce-Ended sys state' files' w))))

    -- Every run that gets to `exit(EXIT_SUCCESS)`, whatever the tracker sends, has a handshake of the
    -- 68 characters that the program asserts, and has changed no file but the bitfield file, which
    -- holds the session's bitfield if it can be written; this bitfield is what stood in the file
    -- before, or, where there was none, what can be read of a new one of the size that
    -- `getBitfieldSize` gives.
    pub main_program-Writes :
        (s : Session) (name : Bytes)
        → main_program sys files ≡ ok s
        → let own = codes "ubuntu2010.torrentbf" in
          (length (get_handshake s.state) ≡ 68)
          × (s.files.contents name ≡ (
              if files.writable own && bytes_eq name own
              then some s.state.bitfield
              else files.contents name))
          × Origin sys.to_double own files s.state
    unfolding write_bitfield
    main_program-Writes s name e =
        let (_, _, _, origin, (files', left, (shaken, _, written, _, _)), named) =
          Returns-eq Finished s (main_program sys files) main_program-Finished e in
        let own = codes "ubuntu2010.torrentbf" in
        let on_files = contents-write_bitfield own name s.state files in
        (
          shaken,
          rw (written, named)
              (elim left [
                | inl kept ↦ rw kept on_files
                | inr (n, made) ↦
                    rw made (write_bitfield-create_empty_file own name n s.state files ∙ on_files)
              ]),
          origin,
        )

    -- A run gets to `exit(EXIT_SUCCESS)` only with the socket library, the console handler and the
    -- torrent file; then, whatever the tracker has sent, it holds one peer for each of the tracker's
    -- objects, has made one socket for each, and then called `connect` once for each of the first
    -- six, in their order, and for no other.
    pub main_program-Needs :
        (s : Session)
        → main_program sys files ≡ ok s
        → (sys.sock.on_startup [] ≡ 0)
          × (sys.set_handler ≢ 0)
          × ((text : Bytes) × (files.contents (codes "ubuntu2010.torrent") ≡ some text))
          × (length s.tracker.bpeers ≡ length s.tracker.peers)
          × (s.calls
              ≡ connects (take 6 s.tracker.bpeers) (socket_calls (length s.tracker.peers) []))
    main_program-Needs s e =
        let (up, set, text, _, (_, _, (_, _, _, counted, called)), _) =
          Returns-eq Finished s (main_program sys files) main_program-Finished e in
        (up, set, text, counted, called)
