-- ===== src/Rewind/Writing.antt =====
-- Writing through src/rewind.rs: the connection below is written as if it were written itself, and
-- what is to be read again stays.
use hudsucker.Prelude.{ℕ, ◌≡◌, refl, ap, List, [], ◌∷◌, Bytes, Poll, Result}
use hudsucker.Rewind.{
  Buffers, AsyncIo, Rewind, rewound, poll_write, poll_write_vectored, poll_flush, poll_shutdown,
}

-- A call of one of the operations of `AsyncWrite`.
pub data Write : Type 0 where
  write : Bytes → Write
  write_vectored : List Bytes → Write
  flush shutdown : Write

module _ (k : Buffers) where
  -- What such a call answers: a number of bytes, or nothing.
  pub data Answer (t : AsyncIo k) : Type 0 where
    wrote : Poll (Result ℕ t.IoError) → Answer t
    finished : Poll (Result (Unit {0}) t.IoError) → Answer t

  abbrev pub call : (t : AsyncIo k) → Write → t.Io → Answer t × t.Io
  call t (write b) io = let (res, io') = t.poll_write io b in (wrote res, io')
  call t (write_vectored bs) io = let (res, io') = t.poll_write_vectored io bs in (wrote res, io')
  call t flush io = let (res, io') = t.poll_flush io in (finished res, io')
  call t shutdown io = let (res, io') = t.poll_shutdown io in (finished res, io')

  -- A series of calls.
  pub writes : (t : AsyncIo k) → List Write → t.Io → List (Answer t) × t.Io
  writes t [] io = ([], io)
  writes t (w ∷ ws) io =
      let (answer, io') = call t w io in
      let (answers, last) = writes t ws io' in (answer ∷ answers, last)

  module _ (t : AsyncIo k) where
    -- The same answer of the connection below.
    abbrev pub below : Answer (rewound k t) → Answer t
    below (wrote res) = wrote res
    below (finished res) = finished res

    abbrev pub all_below : List (Answer (rewound k t)) → List (Answer t)
    all_below [] = []
    all_below (a ∷ answers) = below a ∷ all_below answers

    -- A series of writes, flushes and shutdowns is answered as the connection below answers it, and
    -- leaves that in the same state; what is to be read again is not touched.
    pub writes-rewound :
        (ws : List Write) (r : Rewind t.Io)
        → let (answers, last) = writes (rewound k t) ws r in
          (all_below answers ≡ (writes t ws r.inner).0)
          × (last.inner ≡ (writes t ws r.inner).1)
          × (last.pre ≡ r.pre)
    unfolding writes poll_write poll_write_vectored poll_flush poll_shutdown
    writes-rewound [] r = (refl, refl, refl)
    writes-rewound (write b ∷ ws) r =
        let (same, inner, pre) = writes-rewound ws (poll_write k t r b).1 in
        (ap (λ l. (call t (write b) r.inner).0 ∷ l) same, inner, pre)
    writes-rewound (write_vectored bs ∷ ws) r =
        let (same, inner, pre) = writes-rewound ws (poll_write_vectored k t r bs).1 in
        (ap (λ l. (call t (write_vectored bs) r.inner).0 ∷ l) same, inner, pre)
    writes-rewound (flush ∷ ws) r =
        let (same, inner, pre) = writes-rewound ws (poll_flush k t r).1 in
        (ap (λ l. (call t flush r.inner).0 ∷ l) same, inner, pre)
    writes-rewound (shutdown ∷ ws) r =
        let (same, inner, pre) = writes-rewound ws (poll_shutdown k t r).1 in
        (ap (λ l. (call t shutdown r.inner).0 ∷ l) same, inner, pre)
