-- ===== src/Rewind.antt =====
-- src/rewind.rs: a connection whose first bytes were read already and are read again.
pub mod Replay
pub mod Writing
use hudsucker.Prelude.{
  ℕ, ◌+◌, ◌-◌, ◌≤◌, ◌≡◌, min, Option, none, some, List, [], ◌∷◌, ◌++◌, Bytes, length, take, drop,
  is_empty, if◌then◌else◌, Bool, true, false, Poll, ready, pending, Result, ok, err,
}

-- What the module takes from `bytes` and `tokio`: `Bytes::split_to` and the caller's `ReadBuf`, of
-- which `poll_read` sees the room left and appends to what is filled.
pub record Buffers : Type 1 where
  -- the part cut off, and what stays
  pub split_to : ℕ → Bytes → Bytes × Bytes
  pub ReadBuf : Type 0
  pub filled : ReadBuf → Bytes
  pub remaining : ReadBuf → ℕ
  pub put_slice : Bytes → ReadBuf → ReadBuf
  pub split_to_lem : (n : ℕ) (b : Bytes) → n ≤ length b → split_to n b ≡ (take n b, drop n b)
  pub filled-put_slice :
      (s : Bytes) (b : ReadBuf) → length s ≤ remaining b → filled (put_slice s b) ≡ filled b ++ s
  pub remaining-put_slice :
      (s : Bytes) (b : ReadBuf)
      → length s ≤ remaining b
      → remaining (put_slice s b) ≡ remaining b - length s

-- A type with `AsyncRead` and `AsyncWrite`. An operation returns the new state of the connection.
pub record AsyncIo (k : Buffers) : Type 1 where
  pub Io : Type 0
  pub IoError : Type 0
  pub poll_read : Io → k.ReadBuf → Poll (Result (Unit {0}) IoError) × k.ReadBuf × Io
  pub poll_write : Io → Bytes → Poll (Result ℕ IoError) × Io
  pub poll_write_vectored : Io → List Bytes → Poll (Result ℕ IoError) × Io
  pub poll_flush : Io → Poll (Result (Unit {0}) IoError) × Io
  pub poll_shutdown : Io → Poll (Result (Unit {0}) IoError) × Io
  pub is_write_vectored : Io → Bool

-- `Rewind<T>`.
pub record Rewind (T : Type 0) : Type 0 where
  pub pre : Option Bytes
  pub inner : T

abbrev pub new : {T : Type 0} → T → Bytes → Rewind T
new io buf = record { pre = some buf; inner = io }

module _ (k : Buffers) (t : AsyncIo k) where
  open k use {ReadBuf, split_to, remaining, put_slice}
  open t use {Io, IoError}

  abbrev Read : Type 0
  Read = Poll (Result (Unit {0}) IoError) × ReadBuf × Rewind Io

  -- The read of the connection below, once `pre` has been taken.
  read_inner : Io → ReadBuf → Read
  read_inner io buf =
      let (res, buf', io') = t.poll_read io buf in (res, buf', record { pre = none; inner = io' })

  -- `prefix` is not empty: hand over what fits, and put back what is left.
  read_prefix : Bytes → Io → ReadBuf → Read
  read_prefix prefix io buf =
      let copy_len = min (length prefix) (remaining buf) in
      let (copied, rest) = split_to copy_len prefix in
      (
        ready (ok tt),
        put_slice copied buf,
        record { pre = if is_empty rest then none else some rest; inner = io },
      )

  read_from : Option Bytes → Io → ReadBuf → Read
  read_from none io buf = read_inner io buf
  read_from (some prefix) io buf =
      if is_empty prefix then read_inner io buf else read_prefix prefix io buf

  pub poll_read : Rewind Io → ReadBuf → Read
  unfolding read_from read_inner read_prefix
  poll_read r buf = read_from r.pre r.inner buf

  -- The `AsyncWrite` half goes to the connection below.
  pub poll_write : Rewind Io → Bytes → Poll (Result ℕ IoError) × Rewind Io
  poll_write r b = let (res, io) = t.poll_write r.inner b in (res, record r { inner = io })

  pub poll_write_vectored : Rewind Io → List Bytes → Poll (Result ℕ IoError) × Rewind Io
  poll_write_vectored r bs =
      let (res, io) = t.poll_write_vectored r.inner bs in (res, record r { inner = io })

  pub poll_flush : Rewind Io → Poll (Result (Unit {0}) IoError) × Rewind Io
  poll_flush r = let (res, io) = t.poll_flush r.inner in (res, record r { inner = io })

  pub poll_shutdown : Rewind Io → Poll (Result (Unit {0}) IoError) × Rewind Io
  poll_shutdown r = let (res, io) = t.poll_shutdown r.inner in (res, record r { inner = io })

  pub is_write_vectored : Rewind Io → Bool
  is_write_vectored r = t.is_write_vectored r.inner

-- `Rewind<T>` is a connection again.
abbrev pub rewound : (k : Buffers) → AsyncIo k → AsyncIo k
rewound k t = record {
  Io = Rewind t.Io;
  IoError = t.IoError;
  poll_read = poll_read k t;
  poll_write = poll_write k t;
  poll_write_vectored = poll_write_vectored k t;
  poll_flush = poll_flush k t;
  poll_shutdown = poll_shutdown k t;
  is_write_vectored = is_write_vectored k t;
}
