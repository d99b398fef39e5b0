-- ===== src/Decoder/Roundtrip.antt =====
-- Decoding a body undoes the codings that were applied to it, by src/decoder.rs.
use hudsucker.Prelude.{
  subst, ℕ, suc, ◌≡◌, refl, ap, ◌∙◌, List, [], ◌∷◌, map, flatten, filter_map, Bytes, codes, ◌==◌,
  Result, ok,
}
use hudsucker.Error.{Error, io}
use hudsucker.Body.{Bodies, Body, Next, map_next, frame_of, poll_frame, wrap_stream}
use hudsucker.Body.Frames.{poll_frame-wrap_step}
use hudsucker.Decoder.{
  Decoder, body, decoder, decode_reader, reader_of, decode_one, decode_all, to_body, decode_body,
}
use hudsucker.Decoder.Stream.{poll_next, chunk_of}
use hudsucker.Decoder.Stream.Reading.{poll_next-Yields}
use hudsucker.Decoder.Readers.{Codecs, Yields, ended, item, waits}

-- The codings that are supported.
pub data Coding : Type 0 where
  identity gzip x_gzip deflate br zstd : Coding

abbrev pub name : Coding → Bytes
name identity = codes "identity"
name gzip = codes "gzip"
name x_gzip = codes "x-gzip"
name deflate = codes "deflate"
name br = codes "br"
name zstd = codes "zstd"

module _ (k : Bodies) (c : Codecs k) where
  -- What a coding makes of the bytes of a message.
  abbrev pub encode : Coding → Bytes → Bytes
  encode identity b = b
  encode gzip b = c.gzip b
  encode x_gzip b = c.gzip b
  encode deflate b = c.zlib b
  encode br b = c.brotli b
  encode zstd b = c.zstd b

  -- What is left when codings are undone, given the last one first: `encode_all (g ∷ gs) b` is coded
  -- by `g` last.
  abbrev pub encode_all : List Coding → Bytes → Bytes
  encode_all [] b = b
  encode_all (g ∷ gs) b = encode g (encode_all gs b)

  module _ (fuel : ℕ) where
    -- Read to the end as a stream, a body holds these bytes.
    abbrev pub Contains : Body k → Bytes → Type 0
    Contains b bytes =
        (chunks : List Bytes) × Yields (λ x. poll_next k c.other (suc fuel) x) b (map ok chunks)
        × (flatten chunks ≡ bytes)

    -- What a decoder on the way holds.
    abbrev pub Holds : Decoder k c → Bytes → Type 0
    Holds (body b) bytes = Contains b bytes
    Holds (decoder r) bytes = c.Reads r bytes

    reader_of-BufReads :
        (d : Decoder k c) (bytes : Bytes)
        → Holds d bytes
        → c.BufReads (reader_of k c (suc fuel) d) bytes
    unfolding reader_of
    reader_of-BufReads (body b) bytes (chunks, y, same) =
        rw (← same) (c.stream_reader-BufReads _ b chunks y)
    reader_of-BufReads (decoder r) bytes reads = c.buf_reader-BufReads r bytes reads

    -- One coding is undone.
    decode_one-Holds :
        (g : Coding) (d : Decoder k c) (bytes : Bytes)
        → Holds d (encode g bytes)
        → (d' : Decoder k c) × (decode_one k c (suc fuel) d (name g) ≡ ok d') × Holds d' bytes
    unfolding decode_one decode_reader ◌==◌
    decode_one-Holds identity d bytes h = (d, refl, h)
    decode_one-Holds gzip d bytes h =
        (decoder _, refl, c.gzip_decoder-Reads _ bytes (reader_of-BufReads d _ h))
    decode_one-Holds x_gzip d bytes h =
        (decoder _, refl, c.gzip_decoder-Reads _ bytes (reader_of-BufReads d _ h))
    decode_one-Holds deflate d bytes h =
        (decoder _, refl, c.zlib_decoder-Reads _ bytes (reader_of-BufReads d _ h))
    decode_one-Holds br d bytes h =
        (decoder _, refl, c.brotli_decoder-Reads _ bytes (reader_of-BufReads d _ h))
    decode_one-Holds zstd d bytes h =
        (decoder _, refl, c.zstd_decoder-Reads _ bytes (reader_of-BufReads d _ h))

    decode_all-Holds :
        (gs : List Coding) (d : Decoder k c) (bytes : Bytes)
        → Holds d (encode_all gs bytes)
        → (d' : Decoder k c) × (decode_all k c (suc fuel) (map name gs) d ≡ ok d') × Holds d' bytes
    unfolding decode_all
    decode_all-Holds [] d bytes h = (d, refl, h)
    decode_all-Holds (g ∷ gs) d bytes h =
        let (d', made, h') = decode_one-Holds g d (encode_all gs bytes) h in
        let (d'', rest, h'') = decode_all-Holds gs d' bytes h' in (d'', rw made rest, h'')

    abbrev stream_body : c.ReaderStream → Body k
    stream_body s = wrap_stream k (λ b. b) io c.poll_stream s

    abbrev frame : Result Bytes k.errors.IoError → Result k.Frame (Error k.errors)
    frame = frame_of k (λ b. b) io c.poll_stream

    stream_body-step :
        (s s' : c.ReaderStream) (next : Next (Result Bytes k.errors.IoError))
        → c.poll_stream s ≡ (next, s')
        → poll_frame k (stream_body s) ≡ (map_next frame next, stream_body s')
    stream_body-step s s' next e =
        poll_frame-wrap_step k (λ b. b) io c.poll_stream s
        ∙ ap (λ x. (map_next frame x.0, stream_body x.1)) e

    -- The frames of a body made of a stream.
    stream_body-Yields :
        {s : c.ReaderStream} {items : List (Result Bytes k.errors.IoError)}
        → Yields c.poll_stream s items
        → Yields (poll_frame k) (stream_body s) (map frame items)
    stream_body-Yields (ended {s} {s'} e) = ended (stream_body-step s s' _ e)
    stream_body-Yields (item {s} {s'} e y) = item (stream_body-step s s' _ e) (stream_body-Yields y)
    stream_body-Yields (waits {s} {s'} e y) =
        waits (stream_body-step s s' _ e) (stream_body-Yields y)

    chunks_of_frames :
        (chunks : List Bytes)
        → filter_map (chunk_of k c.other) (map frame (map ok chunks)) ≡ map ok chunks
    unfolding filter_map
    chunks_of_frames [] = refl
    chunks_of_frames (b ∷ chunks) = rw (k.into_data-data_frame b, chunks_of_frames chunks)

    to_body-Contains :
        (d : Decoder k c) (bytes : Bytes)
        → Holds d bytes
        → Contains (to_body k c (suc fuel) d) bytes
    unfolding to_body
    to_body-Contains (body b) bytes h = h
    to_body-Contains (decoder r) bytes reads =
        let (chunks, y, same) = c.poll_stream-Yields r bytes reads in
        (
          chunks,
          subst (Yields (λ x. poll_next k c.other (suc fuel) x) (stream_body (c.reader_stream r)))
              (chunks_of_frames chunks)
              (poll_next-Yields k c.other fuel _ _ (stream_body-Yields y)),
          same,
        )

    -- If supported codings were applied to some bytes, the body with the result is decoded, given
    -- the codings with the last one first, to a body that holds the bytes: decoding succeeds, and
    -- the decoded body yields, read as a stream, chunks that make up exactly those bytes, and then
    -- ends.
    pub decode_body-Contains :
        (gs : List Coding) (b : Body k) (bytes : Bytes)
        → Contains b (encode_all gs bytes)
        → (b' : Body k) × (decode_body k c (suc fuel) (map name gs) b ≡ ok b') × Contains b' bytes
    unfolding decode_body
    decode_body-Contains gs b bytes h =
        let (d, made, holds) = decode_all-Holds gs (body b) bytes h in
        (to_body k c (suc fuel) d, rw made, to_body-Contains d bytes holds)
