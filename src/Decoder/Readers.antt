-- ===== src/Decoder/Readers.antt =====
-- What src/decoder.rs takes from `async-compression`, `tokio` and `tokio-util`: readers, the
-- decoders among them, and streams of what a reader reads.
use hudsucker.Prelude.{
  ◌≡◌, none, some, List, [], ◌∷◌, map, flatten, ready, pending, Result, ok, Bytes,
}
use hudsucker.Error.{Error}
use hudsucker.Body.{Bodies, Next}

-- Polled until it ends, `poll` yields these items.
pub data Yields {S A : Type 0} (poll : S → Next A × S) : S → List A → Type 0 where
  ended : {s s' : S} → poll s ≡ (ready none, s') → Yields poll s []
  item :
      {s s' : S} {a : A} {items : List A}
      → poll s ≡ (ready (some a), s')
      → Yields poll s' items
      → Yields poll s (a ∷ items)
  waits :
      {s s' : S} {items : List A}
      → poll s ≡ (pending, s')
      → Yields poll s' items
      → Yields poll s items

pub record Codecs (k : Bodies) : Type 1 where
  -- `io::Error::other`
  pub other : Error k.errors → k.errors.IoError
  -- a type with `AsyncBufRead`, and a `Box<dyn AsyncRead>`
  pub BufRead : Type 0
  pub Reader : Type 0
  -- `StreamReader::new`, for a stream by its `poll_next`, and `BufReader::new`
  pub stream_reader : {S : Type 0} → (S → Next (Result Bytes k.errors.IoError) × S) → S → BufRead
  pub buf_reader : Reader → BufRead
  pub gzip_decoder : BufRead → Reader
  pub zlib_decoder : BufRead → Reader
  pub brotli_decoder : BufRead → Reader
  pub zstd_decoder : BufRead → Reader
  -- `ReaderStream::new` and its `poll_next`
  pub ReaderStream : Type 0
  pub reader_stream : Reader → ReaderStream
  pub poll_stream : ReaderStream → Next (Result Bytes k.errors.IoError) × ReaderStream
  -- what the codings make of bytes
  pub gzip : Bytes → Bytes
  pub zlib : Bytes → Bytes
  pub brotli : Bytes → Bytes
  pub zstd : Bytes → Bytes
  -- reading to the end succeeds and gives these bytes
  pub BufReads : BufRead → Bytes → Type 0
  pub Reads : Reader → Bytes → Type 0
  pub stream_reader-BufReads :
      {S : Type 0} (poll : S → Next (Result Bytes k.errors.IoError) × S) (s : S)
      (chunks : List Bytes)
      → Yields poll s (map ok chunks)
      → BufReads (stream_reader poll s) (flatten chunks)
  pub buf_reader-BufReads : (r : Reader) (b : Bytes) → Reads r b → BufReads (buf_reader r) b
  -- a decoder reads what was encoded
  pub gzip_decoder-Reads :
      (r : BufRead) (b : Bytes) → BufReads r (gzip b) → Reads (gzip_decoder r) b
  pub zlib_decoder-Reads :
      (r : BufRead) (b : Bytes) → BufReads r (zlib b) → Reads (zlib_decoder r) b
  pub brotli_decoder-Reads :
      (r : BufRead) (b : Bytes) → BufReads r (brotli b) → Reads (brotli_decoder r) b
  pub zstd_decoder-Reads :
      (r : BufRead) (b : Bytes) → BufReads r (zstd b) → Reads (zstd_decoder r) b
  pub poll_stream-Yields :
      (r : Reader) (b : Bytes)
      → Reads r b
      → (chunks : List Bytes) × Yields poll_stream (reader_stream r) (map ok chunks)
        × (flatten chunks ≡ b)
