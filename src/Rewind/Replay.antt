-- ===== src/Rewind/Replay.antt =====
-- Reading through src/rewind.rs: the bytes that were read ahead come first, whole and in order, and
-- the connection below then answers as if it were read itself.
use hudsucker.Prelude.{
  ℕ, ◌+◌, ◌≤◌, ◌≡◌, refl, sym, ◌∙◌, ◌⊎◌, inl, inr, min, Option, none, some, List, [], ◌∷◌, ◌++◌,
  Bytes, length, take, drop, is_empty, if◌then◌else◌, Poll, ready, Result, ok, All,
  take-append-take-drop, drop-drop, take-min, drop-min, length-take, length-drop, take-append-drop,
  arith,
}
use hudsucker.Rewind.{Buffers, AsyncIo, Rewind, new, rewound, poll_read}

module _ (k : Buffers) where
  -- What a read returned, and the caller's buffer after it.
  abbrev pub Answer : AsyncIo k → Type 0
  Answer t = Poll (Result (Unit {0}) t.IoError) × k.ReadBuf

  -- A series of reads, one into each of the buffers.
  unfoldable pub reads : (t : AsyncIo k) → t.Io → List k.ReadBuf → List (Answer t) × t.Io
  reads t io [] = ([], io)
  reads t io (buf ∷ bufs) =
      let (res, buf', io') = t.poll_read io buf in
      let (answers, last) = reads t io' bufs in ((res, buf') ∷ answers, last)

  -- The bytes that buffers hold, in order.
  abbrev pub contents : {E : Type 0} → List (E × k.ReadBuf) → Bytes
  contents [] = []
  contents ((_, buf) ∷ answers) = k.filled buf ++ contents answers

  -- The room in buffers.
  abbrev pub room : List k.ReadBuf → ℕ
  room [] = 0
  room (buf ∷ bufs) = k.remaining buf + room bufs

  -- What is to be read again.
  abbrev pub pending_bytes : Option Bytes → Bytes
  pending_bytes none = []
  pending_bytes (some b) = b

  module _ (t : AsyncIo k) where
    abbrev Rewound : Type 0
    Rewound = Rewind t.Io

    -- Reads with these buffers of a connection with `prefix` to be read again, in front of `io`.
    pub record Replays (prefix : Bytes) (io : t.Io) (bufs : List k.ReadBuf)
        (out : List (Answer t) × Rewind t.Io) : Type 0 where
      -- the answers from the prefix, and those of the connection below
      pub replayed : List (Answer t)
      pub passed : List (Answer t)
      pub split : out.0 ≡ replayed ++ passed
      pub succeed : All (λ a. a.0 ≡ ready (ok tt)) replayed
      pub exact : contents replayed ≡ take (room (take (length replayed) bufs)) prefix
      pub left : pending_bytes out.1.pre ≡ drop (room (take (length replayed) bufs)) prefix
      pub rest : (passed, out.1.inner) ≡ reads t io (drop (length replayed) bufs)
      pub few : All (λ buf. 1 ≤ k.remaining buf) bufs → length replayed ≤ length prefix
      pub order : (passed ≡ []) ⊎ (contents replayed ≡ prefix)

    -- With nothing to be read again every read goes to the connection below.
    reads-none :
        (bufs : List k.ReadBuf) (io : t.Io)
        → reads (rewound k t) (record { pre = none; inner = io }) bufs
          ≡ ((reads t io bufs).0, record { pre = none; inner = (reads t io bufs).1 })
    unfolding reads poll_read
    reads-none [] io = refl
    reads-none (buf ∷ bufs) io = rw (reads-none bufs (t.poll_read io buf).2)

    -- Such a series is answered by the connection below alone.
    passes :
        (prefix : Bytes) (io : t.Io) (bufs : List k.ReadBuf) (out : List (Answer t) × Rewind t.Io)
        → prefix ≡ []
        → out ≡ ((reads t io bufs).0, record { pre = none; inner = (reads t io bufs).1 })
        → Replays prefix io bufs out
    passes prefix io bufs out empty e = record {
      replayed = [];
      passed = (reads t io bufs).0;
      split = rw e;
      succeed = tt;
      exact = refl;
      left = rw (e, empty);
      rest = rw e;
      few = λ has_room. omega arith;
      order = inr (sym empty);
    }

    abbrev put_back : Bytes → Option Bytes
    put_back rest = if is_empty rest then none else some rest

    pending_bytes-put_back : (rest : Bytes) → pending_bytes (put_back rest) ≡ rest
    pending_bytes-put_back [] = refl
    pending_bytes-put_back (x ∷ xs) = refl

    unpend :
        (rest : Bytes) (io : t.Io) (bufs : List k.ReadBuf) (out : List (Answer t) × Rewind t.Io)
        → Replays (pending_bytes (put_back rest)) io bufs out
        → Replays rest io bufs out
    unpend rest io bufs out r = rw pending_bytes-put_back at r

    -- A read while something is left to be read again: as much of it as there is room for.
    poll_read-prefix :
        (x : ℕ) (xs : Bytes) (io : t.Io) (buf : k.ReadBuf)
        → poll_read k t (record { pre = some (x ∷ xs); inner = io }) buf ≡ (
          ready (ok tt),
          k.put_slice (take (k.remaining buf) (x ∷ xs)) buf,
          record { pre = put_back (drop (k.remaining buf) (x ∷ xs)); inner = io },
        )
    unfolding poll_read
    poll_read-prefix x xs io buf =
        rw (k.split_to_lem (min (length (x ∷ xs)) (k.remaining buf)) (x ∷ xs) (omega arith))
          (rw (take-min (k.remaining buf) (x ∷ xs), drop-min (k.remaining buf) (x ∷ xs)))

    filled-take :
        (p : Bytes) (buf : k.ReadBuf)
        → k.filled buf ≡ []
        → k.filled (k.put_slice (take (k.remaining buf) p) buf) ≡ take (k.remaining buf) p
    filled-take p buf fresh =
        k.filled-put_slice (take (k.remaining buf) p) buf
          (omega (arith, length-take (k.remaining buf) p))
        ∙ rw fresh

    -- One more read from the prefix in front of a series.
    Replays-cons :
        (x : ℕ) (xs : Bytes) (io : t.Io) (buf : k.ReadBuf) (bufs : List k.ReadBuf)
        → k.filled buf ≡ []
        → let rest = drop (k.remaining buf) (x ∷ xs) in
          Replays rest io bufs
            (reads (rewound k t) (record { pre = put_back rest; inner = io }) bufs)
          → Replays
              (x ∷ xs)
              io
              (buf ∷ bufs)
              (reads (rewound k t) (record { pre = some (x ∷ xs); inner = io }) (buf ∷ bufs))
    unfolding reads
    Replays-cons x xs io buf bufs fresh r = rw poll_read-prefix (record {
      replayed = (ready (ok tt), k.put_slice (take n (x ∷ xs)) buf) ∷ r.replayed;
      passed = r.passed;
      split = rw r.split;
      succeed = (refl, r.succeed);
      exact = rw (filled-take (x ∷ xs) buf fresh, r.exact) (take-append-take-drop n m (x ∷ xs));
      left = r.left ∙ drop-drop n m (x ∷ xs);
      rest = r.rest;
      few = λ has_room. omega (arith, has_room.0, r.few has_room.1, length-drop n (x ∷ xs));
      order = elim r.order [
        | inl none_passed ↦ inl none_passed
        | inr all ↦ inr (rw (filled-take (x ∷ xs) buf fresh, all) (take-append-drop n (x ∷ xs)))
      ];
    })
      where
        n : ℕ
        n = k.remaining buf

        m : ℕ
        m = room (take (length r.replayed) bufs)

    Replays-from :
        (bufs : List k.ReadBuf) (pre : Option Bytes) (io : t.Io)
        → All (λ buf. k.filled buf ≡ []) bufs
        → Replays
            (pending_bytes pre)
            io
            bufs
            (reads (rewound k t) (record { pre = pre; inner = io }) bufs)
    unfolding reads poll_read
    Replays-from [] pre io fresh = record {
      replayed = [];
      passed = [];
      split = refl;
      succeed = tt;
      exact = refl;
      left = refl;
      rest = refl;
      few = λ has_room. omega arith;
      order = inl refl;
    }
    Replays-from (buf ∷ bufs) none io fresh =
        passes [] io (buf ∷ bufs) _ refl (reads-none (buf ∷ bufs) io)
    Replays-from (buf ∷ bufs) (some []) io fresh =
        passes [] io (buf ∷ bufs) _ refl (reads-none (buf ∷ bufs) io)
    Replays-from (buf ∷ bufs) (some (x ∷ xs)) io fresh =
        let rest = drop (k.remaining buf) (x ∷ xs) in
        Replays-cons x xs io buf bufs fresh.0
          (unpend rest io bufs _ (Replays-from bufs (put_back rest) io fresh.1))

    -- A series of reads fills buffers of whatever sizes, each empty before, from a connection with
    -- bytes put back in front. The first of the reads return successfully, and hand over exactly as
    -- much of these bytes as they have room for, in order; the others are answered as the
    -- connection below answers them when it is read alone, and there are such only when every byte
    -- that was put back was handed over. With room in every buffer the first reads are no more in
    -- number than the bytes that were put back.
    pub reads-Replays :
        (bufs : List k.ReadBuf) (io : t.Io) (prefix : Bytes)
        → All (λ buf. k.filled buf ≡ []) bufs
        → Replays prefix io bufs (reads (rewound k t) (new io prefix) bufs)
    reads-Replays bufs io prefix fresh = Replays-from bufs (some prefix) io fresh
