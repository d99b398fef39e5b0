-- ===== src/Tests/LosslessExamples.antt =====
-- What the connection of the sample runtime delivers, and the theorem about tunnels there.
use hudsucker.Prelude.{
  ℕ, zero, suc, min, arith, ◌≤◌, length-take, length-drop, length-append, ◌≡◌, refl, sym, ap, ◌∙◌,
  List, [], ◌∷◌, ◌++◌, append-nil, append_assoc, Bytes, codes, ok-injective, All, take, drop,
  length, take-append-drop,
}
use hudsucker.Handler.{noop_http, noop_websocket}
use hudsucker.Rewind.Replay.{reads, contents}
use hudsucker.Internal.Connect.{connect_task}
use hudsucker.Internal.Connect.Lossless.{
  IsFresh, IsRead, HasRoom, Delivers, ReadsAhead, EventDelivers, connect_task-EventDelivers,
}
use hudsucker.Tests.IoSample.{platform, buffers, connection, runtime}
use hudsucker.Tests.InternalExamples.{self, connect_request}

reads_whole :
    (bufs : List (ℕ × Bytes)) (io : Bytes)
    → All (IsFresh connection) bufs
    → contents buffers (reads buffers connection io bufs).0 ++ (reads buffers connection io bufs).1
      ≡ io
unfolding reads
reads_whole [] io fresh = refl
reads_whole ((room, filled) ∷ bufs) io (fresh, rest) =
    rw
      (
        fresh,
        append_assoc (take room io)
            (contents buffers (reads buffers connection (drop room io) bufs).0),
      )
      (ap (λ l. take room io ++ l) (reads_whole bufs (drop room io) rest)
        ∙ take-append-drop room io)

-- Each read into a buffer with room takes a byte, as long as there is one.
reads_progress :
    (bufs : List (ℕ × Bytes)) (io : Bytes)
    → All (IsFresh connection) bufs
    → All (HasRoom connection) bufs
    → min (length bufs) (length io) ≤ length (contents buffers (reads buffers connection io bufs).0)
unfolding reads
reads_progress [] io fresh has_room = omega arith
reads_progress ((n, filled) ∷ bufs) io (fresh, rest) (some_room, has_room) =
    let got = contents buffers (reads buffers connection (drop n io) bufs).0 in
    rw fresh (
      omega (
        arith,
        some_room,
        length-take n io,
        length-drop n io,
        length-append (take n io) got,
        reads_progress bufs (drop n io) rest has_room,
      ))

delivers : (io : Bytes) → Delivers connection io io
delivers io bufs fresh succeed = (
  ((reads buffers connection io bufs).1, reads_whole bufs io fresh),
  reads_progress bufs io fresh,
)

take-length : (xs : Bytes) → take (length xs) xs ≡ xs
take-length [] = refl
take-length (x ∷ xs) = ap (λ l. x ∷ l) (take-length xs)

-- Buffers with room for one byte each.
abbrev small : ℕ → List (ℕ × Bytes)
small zero = []
small (suc n) = (1, []) ∷ small n

small-IsFresh : (n : ℕ) → All (IsFresh connection) (small n)
small-IsFresh zero = tt
small-IsFresh (suc n) = (refl, small-IsFresh n)

small-HasRoom : (n : ℕ) → All (HasRoom connection) (small n)
small-HasRoom zero = tt
small-HasRoom (suc n) = (omega arith, small-HasRoom n)

length-small : (n : ℕ) → length (small n) ≡ n
length-small zero = refl
length-small (suc n) = omega (arith, length-small n)

small-IsRead :
    (n : ℕ) (io : Bytes) → All (IsRead connection) (reads buffers connection io (small n)).0
unfolding reads
small-IsRead zero io = tt
small-IsRead (suc n) io = (refl, small-IsRead n (drop 1 io))

empty_end : (xs : Bytes) → length xs ≡ 0 → xs ≡ []
empty_end [] e = refl
empty_end (x ∷ xs) e = absurd (omega (arith, e))

-- What a connection delivers is all that is read from it.
Delivers-unique : (io content : Bytes) → Delivers connection io content → io ≡ content
unfolding reads
Delivers-unique io content d =
    let n = length content in
    let ((more, whole), _) = d ((length io, []) ∷ []) (refl, tt) (refl, tt) in
    let is_whole : io ++ more ≡ content = rw (take-length io, append-nil io) at whole in
    let (_, moves) = d (small n) (small-IsFresh n) (small-IsRead n io) in
    let got = contents buffers (reads buffers connection io (small n)).0 in
    let left = (reads buffers connection io (small n)).1 in
    let nothing_more : more ≡ [] = empty_end more (
      omega (
        arith,
        moves (small-HasRoom n),
        length-small n,
        length-append got left,
        ap length (reads_whole (small n) io (small-IsFresh n)),
        length-append io more,
        ap length is_whole,
      )) in
    sym (append-nil io) ∙ (rw nothing_more at is_whole)

reads_ahead : ReadsAhead runtime
reads_ahead n io io' bytes content e d =
    let same = Delivers-unique io content d in
    let taken : take n io ≡ bytes = ok-injective (ap (λ x. x.0) e) in
    let left : drop n io ≡ io' = ap (λ x. x.1) e in
    (io', rw (← same, ← taken, ← left) (sym (take-append-drop n io)), delivers io')

connect_task-EventDelivers_example :
    All
      (EventDelivers runtime
        (noop_http platform)
        (noop_websocket platform)
        (codes "GET / HTTP/1.1"))
      (connect_task runtime
        (noop_http platform)
        (noop_websocket platform)
        self
        connect_request
        (codes "example.com"))
connect_task-EventDelivers_example =
    connect_task-EventDelivers runtime (noop_http platform) (noop_websocket platform) self
      connect_request connect_request (codes "example.com") (codes "GET / HTTP/1.1")
      (codes "/ HTTP/1.1") (codes "GET ") (codes "GET / HTTP/1.1") reads_ahead refl refl
      (delivers (codes "GET / HTTP/1.1"))
