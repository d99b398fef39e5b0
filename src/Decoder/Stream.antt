-- ===== src/Decoder/Stream.antt =====
-- `IoStream` of src/decoder.rs: the data of a body as a stream of chunks, for a reader.
pub mod Reading
pub mod Returning
use hudsucker.Prelude.{
  ℕ, zero, suc, Option, none, some, Poll, ready, pending, Result, ok, err, Bytes,
}
use hudsucker.Error.{Error, tls, network, io, decode, unknown}
use hudsucker.Body.{Bodies, Body, Next, poll_frame}

module _ (k : Bodies) (other : Error k.errors → k.errors.IoError) where
  open k use {errors, Frame}

  -- `Error::Io(err)` is the error itself; any other is wrapped by `io::Error::other`.
  abbrev pub io_error : Error errors → errors.IoError
  io_error (io e) = e
  io_error (tls e) = other (tls e)
  io_error (network e) = other (network e)
  io_error decode = other decode
  io_error unknown = other unknown

  -- The chunk for a frame or an error; a frame that holds no data has none.
  abbrev pub chunk_of : Result Frame (Error errors) → Option (Result Bytes errors.IoError)
  chunk_of (ok frame) = elim (k.into_data frame) [ some buf ↦ some (ok buf) | none ↦ none ]
  chunk_of (err e) = some (err (io_error e))

  abbrev pub Chunk : Type 0
  Chunk = Next (Result Bytes errors.IoError) × Body k

  -- `continue`, for a frame that holds no data.
  pass_over : (Body k → Chunk) → Option (Result Bytes errors.IoError) → Body k → Chunk
  pass_over again (some chunk) b = (ready (some chunk), b)
  pass_over again none b = again b

  on_frame : (Body k → Chunk) → Next (Result Frame (Error errors)) × Body k → Chunk
  on_frame again (pending, b) = (pending, b)
  on_frame again (ready none, b) = (ready none, b)
  on_frame again (ready (some item), b) = pass_over again (chunk_of item) b

  -- `poll_next`: the loop that passes over the frames that hold no data, at most `fuel` of them.
  -- When it runs out the answer is `pending`, as that of a poll that has not returned yet.
  pub poll_next : ℕ → Body k → Chunk
  unfolding on_frame pass_over
  poll_next zero b = (pending, b)
  poll_next (suc fuel) b = on_frame (poll_next fuel) (poll_frame k b)
