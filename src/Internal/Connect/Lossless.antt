-- ===== src/Internal/Connect/Lossless.antt =====
-- No byte of a tunnel is lost, in src/proxy/internal.rs with src/rewind.rs: what was read to find
-- the protocol is read again by whoever gets the connection.
use hudsucker.Prelude.{
  ℕ, ◌≤◌, ◌≡◌, refl, sym, ap, ◌∙◌, inl, inr, List, [], ◌∷◌, ◌++◌, append_assoc, append-nil, Bytes,
  ok, ready, All, All-append-right, All-drop, map-All, take, drop, length, take-append-drop,
  length-take, length-drop, length-append, min, arith, zero, suc,
}
use hudsucker.Platform.{Platform, BodyRequest}
use hudsucker.Handler.{HttpHandler, WebSocketHandler}
use hudsucker.Rewind.{Buffers, AsyncIo, Rewind, new, rewound}
use hudsucker.Rewind.Replay.{Answer, reads, contents, room, Replays, reads-Replays}
use hudsucker.Internal.Runtime.{Runtime, InternalProxy}
use hudsucker.Internal.Connect.{
  plain, tls, Event, upgrade_error, read_failed, config_panicked, accepted, tls_failed, served,
  websocket_connect_error, https_connect_error, unknown_protocol, connect_failed, tunnelled,
  tunnel_failed, connect_task,
}
use hudsucker.Internal.Connect.Laws.{Concerns}
use hudsucker.Internal.Connect.Intercept.{connect_task-Handles}

module _ {k : Buffers} (t : AsyncIo k) where
  abbrev pub IsFresh : k.ReadBuf → Type 0
  IsFresh buf = k.filled buf ≡ []

  abbrev pub IsRead : Answer k t → Type 0
  IsRead a = a.0 ≡ ready (ok tt)

  abbrev pub HasRoom : k.ReadBuf → Type 0
  HasRoom buf = 1 ≤ k.remaining buf

  -- What is handed over is a beginning of the content, and, if each buffer has room, at least one
  -- byte for each of them until all of the content is handed over.
  abbrev pub HandsOver : List k.ReadBuf → Bytes → Bytes → Type 0
  HandsOver bufs content got =
      ((rest : Bytes) × (got ++ rest ≡ content))
      × (All HasRoom bufs → min (length bufs) (length content) ≤ length got)

  -- A series of reads into fresh buffers that all succeed hands over these bytes, from the first on.
  abbrev pub Delivers : t.Io → Bytes → Type 0
  Delivers io content =
      (bufs : List k.ReadBuf)
      → All IsFresh bufs
      → All IsRead (reads k t io bufs).0
      → HandsOver bufs content (contents k (reads k t io bufs).0)

  -- Buffers with room have as much of it as there are buffers.
  length-room :
      (n : ℕ) (bufs : List k.ReadBuf)
      → All HasRoom bufs
      → length bufs ≤ n
      → length bufs ≤ room k (take n bufs)
  length-room n [] has_room short = omega arith
  length-room zero (buf ∷ bufs) has_room short = absurd (omega (arith, short))
  length-room (suc n) (buf ∷ bufs) (some_room, has_room) short =
      omega (arith, some_room, length-room n bufs has_room (omega (arith, short)))

  length-reads : (bufs : List k.ReadBuf) (io : t.Io) → length (reads k t io bufs).0 ≡ length bufs
  unfolding reads
  length-reads [] io = refl
  length-reads (buf ∷ bufs) io = omega (arith, length-reads bufs (t.poll_read io buf).2)

  contents-append :
      (xs ys : List (Answer k t)) → contents k (xs ++ ys) ≡ contents k xs ++ contents k ys
  contents-append [] ys = refl
  contents-append ((_, buf) ∷ xs) ys =
      rw (contents-append xs ys) (sym (append_assoc (k.filled buf) (contents k xs) (contents k ys)))

module _ {k : Buffers} (t : AsyncIo k) (io : t.Io) (prefix rest : Bytes) where
  replayed_in_order :
      (bufs : List k.ReadBuf) (out : List (Answer k t) × Rewind t.Io)
      → Replays k t prefix io bufs out
      → Delivers t io rest
      → All (IsFresh t) bufs
      → All (IsRead t) out.0
      → HandsOver t bufs (prefix ++ rest) (contents k out.0)
  replayed_in_order bufs out r delivers fresh succeed = elim r.order [
    | inl none_passed ↦
        let n = room k (take (length r.replayed) bufs) in
        let got : contents k out.0 ≡ take n prefix =
          rw (r.split, none_passed, append-nil r.replayed) r.exact in
        (
          (
            drop n prefix ++ rest,
            rw got (
                rw
                  (
                    sym (append_assoc (take n prefix) (drop n prefix) rest),
                    take-append-drop n prefix,
                  )
                  refl),
          ),
          λ has_room.
              (let short : length bufs ≤ length r.replayed = omega (
                arith,
                length-drop (length r.replayed) bufs,
                length-reads t (drop (length r.replayed) bufs) io,
                ap length (sym none_passed ∙ ap (λ x. x.0) r.rest),
              ) in
                rw got (
                  omega (
                    arith,
                    length-take n prefix,
                    length-room t (length r.replayed) bufs has_room short,
                    short,
                    r.few has_room,
                  ))),
        )
    | inr all ↦
        let bufs' = drop (length r.replayed) bufs in
        let passed : r.passed ≡ (reads k t io bufs').0 = ap (λ x. x.0) r.rest in
        let ((left, e), moves) =
          delivers bufs' (All-drop (IsFresh t) (length r.replayed) bufs fresh) (
            rw passed at
              (All-append-right (IsRead t) r.replayed r.passed (rw r.split at succeed))) in
        let got : contents k out.0 ≡ prefix ++ contents k (reads k t io bufs').0 =
          rw (r.split, contents-append t r.replayed r.passed, all, passed) refl in
        (
          (
            left,
            rw (got, append_assoc prefix (contents k (reads k t io bufs').0) left)
                (ap (λ l. prefix ++ l) e),
          ),
          λ has_room. rw got (
              omega (
                arith,
                length-append prefix (contents k (reads k t io bufs').0),
                length-append prefix rest,
                length-drop (length r.replayed) bufs,
                r.few has_room,
                moves (All-drop (HasRoom t) (length r.replayed) bufs has_room),
              )),
        )
  ]

  -- A connection with bytes put back delivers them, and then what is left below.
  pub new-Delivers : Delivers t io rest → Delivers (rewound k t) (new io prefix) (prefix ++ rest)
  new-Delivers delivers bufs fresh succeed =
      replayed_in_order bufs _ (reads-Replays k t bufs io prefix fresh) delivers fresh succeed

-- `read` takes what it returns off the front of what a connection delivers.
abbrev pub ReadsAhead : {p : Platform} {k : Buffers} → Runtime p k → Type 0
ReadsAhead r =
    (n : ℕ) (io io' : r.upgraded.Io) (bytes content : Bytes)
    → r.read n io ≡ (ok bytes, io')
    → Delivers r.upgraded io content
    → (rest : Bytes) × (content ≡ bytes ++ rest) × Delivers r.upgraded io' rest

module _ {p : Platform} {k : Buffers} (r : Runtime p k) (h : HttpHandler p)
    (w : WebSocketHandler p) where
  -- Where a connection is handed on, it delivers these bytes.
  abbrev pub EventDelivers : Bytes → Event r h w → Type 0
  EventDelivers content (accepted authority io) = Delivers (rewound k r.upgraded) io content
  EventDelivers content (served self (plain io) scheme authority) =
      Delivers (rewound k r.upgraded) io content
  EventDelivers content (served self (tls stream) scheme authority) = Unit
  EventDelivers content (tunnelled authority io) = Delivers (rewound k r.upgraded) io content
  EventDelivers content (upgrade_error e) = Unit
  EventDelivers content (read_failed e) = Unit
  EventDelivers content (tls_failed e) = Unit
  EventDelivers content (config_panicked a) = Unit
  EventDelivers content (websocket_connect_error e) = Unit
  EventDelivers content (https_connect_error e) = Unit
  EventDelivers content (unknown_protocol bytes) = Unit
  EventDelivers content (connect_failed authority e) = Unit
  EventDelivers content (tunnel_failed authority e) = Unit

  concerned-EventDelivers :
      (ca : r.Ca) (authority : p.http.Authority) (conn : Rewind r.upgraded.Io) (content : Bytes)
      → Delivers (rewound k r.upgraded) conn content
      → (e : Event r h w) → Concerns r h w ca authority conn e
      → EventDelivers content e
  concerned-EventDelivers ca authority conn content d (accepted a io) (_, same) = rw same d
  concerned-EventDelivers ca authority conn content d (served self (plain io) scheme a)
        (_, same, _) =
      rw same d
  concerned-EventDelivers ca authority conn content d (served self (tls stream) scheme a) c = tt
  concerned-EventDelivers ca authority conn content d (tunnelled a io) (_, same) = rw same d
  concerned-EventDelivers ca authority conn content d (upgrade_error e) c = tt
  concerned-EventDelivers ca authority conn content d (read_failed e) c = tt
  concerned-EventDelivers ca authority conn content d (tls_failed e) c = tt
  concerned-EventDelivers ca authority conn content d (config_panicked a) c = tt
  concerned-EventDelivers ca authority conn content d (websocket_connect_error e) c = tt
  concerned-EventDelivers ca authority conn content d (https_connect_error e) c = tt
  concerned-EventDelivers ca authority conn content d (unknown_protocol bytes) c = tt
  concerned-EventDelivers ca authority conn content d (connect_failed a e) c = tt
  concerned-EventDelivers ca authority conn content d (tunnel_failed a e) c = tt

  -- A connection delivers some bytes if reads that succeed hand them over in order, from the first
  -- on, and each read into a buffer with room at least one of them until there are no more. If the
  -- upgraded connection delivers some bytes, and reading takes what it returns off their front,
  -- then wherever the task of a tunnel hands the connection on (to the TLS handshake, to the server
  -- for HTTP, to the copying), it delivers all these bytes from the first on, in order, however
  -- large the buffers are that they are read into: those that were read to find the protocol are
  -- neither lost nor handed over twice.
  pub connect_task-EventDelivers :
      (self : InternalProxy r h w) (req req' : BodyRequest p) (authority : p.http.Authority)
      (io io' : r.upgraded.Io) (bytes content : Bytes)
      → ReadsAhead r
      → r.upgrade_on req ≡ (ok io, req')
      → r.read 4 io ≡ (ok bytes, io')
      → Delivers r.upgraded io content
      → All (EventDelivers content) (connect_task r h w self req authority)
  connect_task-EventDelivers self req req' authority io io' bytes content ahead up first d =
      let (rest, split, below) = ahead 4 io io' bytes content first d in
      let handles = connect_task-Handles r h w self req req' authority io io' bytes up first in
      map-All (Concerns r h w self.ca authority (new io' bytes)) (EventDelivers content)
        (connect_task r h w self req authority)
        (concerned-EventDelivers self.ca authority (new io' bytes) content
          (rw split (new-Delivers r.upgraded io' bytes rest below)))
        handles.concerns
