-- ===== src/Decoder.antt =====
-- src/decoder.rs: a body is decoded by the codings of its Content-Encoding headers, last one first.
pub mod Stream
pub mod Readers
pub mod Encodings
pub mod Roundtrip
pub mod Message
pub mod Decoded
use hudsucker.Prelude.{
  ℕ, Bool, true, false, if◌then◌else◌, ◌||◌, not, Option, none, some, List, [], ◌∷◌, map, reverse,
  flat_map, Bytes, codes, ◌==◌, Result, ok, err, ◌>>=◌,
}
use hudsucker.Http.{Http, Request, Response, content_encoding, content_length}
use hudsucker.Error.{Error, decode, io}
use hudsucker.Bstr.{Bstr}
use hudsucker.Body.{Bodies, Body, wrap_stream}
use hudsucker.Decoder.Stream.{poll_next}
use hudsucker.Decoder.Readers.{Codecs}

-- `extract_encodings`.
unfoldable pub extract_encodings : (h : Http) → Bstr → h.HeaderMap → List Bytes
extract_encodings h s headers =
    flat_map (λ val. map s.trim (s.rsplit_str (h.as_bytes val) (codes ",")))
      (reverse (h.get_all headers content_encoding))

-- `enum Decoder<Body>`, where `Box<dyn AsyncRead>` is a reader.
pub data Decoder (k : Bodies) (c : Codecs k) : Type 0 where
  body : Body k → Decoder k c
  decoder : c.Reader → Decoder k c

-- `fuel` bounds how many frames that hold no data one poll of the body passes over.
module _ (k : Bodies) (c : Codecs k) (fuel : ℕ) where
  open c use {BufRead, Reader}

  -- The function `decode`.
  pub decode_reader : Bytes → BufRead → Result Reader (Error k.errors)
  decode_reader encoding reader =
      if encoding == codes "gzip" || encoding == codes "x-gzip"
      then ok (c.gzip_decoder reader)
      else if encoding == codes "deflate"
      then ok (c.zlib_decoder reader)
      else if encoding == codes "br"
      then ok (c.brotli_decoder reader)
      else if encoding == codes "zstd"
      then ok (c.zstd_decoder reader)
      else err decode

  -- The reader below the next decoder.
  pub reader_of : Decoder k c → BufRead
  reader_of (body b) = c.stream_reader (poll_next k c.other fuel) b
  reader_of (decoder r) = c.buf_reader r

  -- `Decoder::decode`.
  pub decode_one : Decoder k c → Bytes → Result (Decoder k c) (Error k.errors)
  unfolding decode_reader reader_of
  decode_one d encoding =
      if encoding == codes "identity"
      then ok d
      else (decode_reader encoding (reader_of d) >>= λ r. ok (decoder r))

  -- `From<Decoder<Body>> for Body`.
  pub to_body : Decoder k c → Body k
  to_body (body b) = b
  to_body (decoder r) = wrap_stream k (λ b. b) io c.poll_stream (c.reader_stream r)

  -- The loop of `decode_body`.
  pub decode_all : List Bytes → Decoder k c → Result (Decoder k c) (Error k.errors)
  unfolding decode_one
  decode_all [] d = ok d
  decode_all (encoding ∷ encodings) d = decode_one d encoding >>= decode_all encodings

  pub decode_body : List Bytes → Body k → Result (Body k) (Error k.errors)
  unfolding decode_all to_body
  decode_body encodings b = decode_all encodings (body b) >>= λ d. ok (to_body d)

  module _ (h : Http) (s : Bstr) where
    open h use {HeaderMap, HeaderValue}

    -- `if let Some(val) = .. { if val == "0" .. }`
    abbrev pub is_zero : Option HeaderValue → Bool
    is_zero none = false
    is_zero (some val) = h.as_bytes val == codes "0"

    -- What `decode_request` and `decode_response` do with the headers and the body.
    pub decode_parts : HeaderMap → Body k → Result (HeaderMap × Body k) (Error k.errors)
    unfolding decode_body extract_encodings
    decode_parts headers b =
        if not (h.contains_key headers content_encoding)
        then ok (headers, b)
        else let (val, headers') = h.remove headers content_length in
          if is_zero val then ok (headers', b) else do
            b' ← decode_body (extract_encodings h s headers') b
            ok ((h.remove headers' content_encoding).1, b')

    pub decode_request : Request h (Body k) → Result (Request h (Body k)) (Error k.errors)
    unfolding decode_parts
    decode_request req = decode_parts req.headers req.body >>= λ parts.
        ok (record req { headers = parts.0; body = parts.1 })

    pub decode_response : Response h (Body k) → Result (Response h (Body k)) (Error k.errors)
    unfolding decode_parts
    decode_response res = decode_parts res.headers res.body >>= λ parts.
        ok (record res { headers = parts.0; body = parts.1 })
