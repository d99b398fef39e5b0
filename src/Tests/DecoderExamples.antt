-- ===== src/Tests/DecoderExamples.antt =====
-- Tests of the model of src/decoder.rs, and the theorems about it at concrete inputs.
use hudsucker.Prelude.{
  ◌≤◌, length, ℕ, ◌≡◌, refl, false, none, some, List, [], ◌∷◌, map, reverse, flatten, Bytes, codes,
  ◌==◌, flat_map, filter_map, Result, ok, All, arith,
}
use hudsucker.Http.{Request, Response, http_11, content_encoding, content_length, host_header}
use hudsucker.Error.{Error}
use hudsucker.Body.{Body, from_incoming, poll_frame}
use hudsucker.Decoder.{extract_encodings, decode_request, decode_response}
use hudsucker.Decoder.Stream.{Chunk, poll_next, chunk_of}
use hudsucker.Decoder.Stream.Reading.{poll_next-Yields}
use hudsucker.Decoder.Stream.Returning.{Returns, poll_next-Returns}
use hudsucker.Decoder.Readers.{Yields, ended, item}
use hudsucker.Decoder.Encodings.{
  Element, HeaderList, IsElement, elements, value_text, words, extract_encodings_lem,
}
use hudsucker.Decoder.Roundtrip.{Coding, gzip, br, zstd, Contains}
use hudsucker.Decoder.Message.{SucceedsIff}
use hudsucker.Decoder.Decoded.{
  is_accepted, decode_request-SucceedsIff, decode_response-SucceedsIff, IsDecoded, IsCoded,
  decode_request-decodes, decode_response-decodes,
}
use hudsucker.Tests.HttpSample.{http, Entries}
use hudsucker.Tests.BstrSample.{bstr}
use hudsucker.Tests.IoSample.{Frame, bodies, codecs}

abbrev element : Bytes → Element
element w = record { before = codes " "; word = w; after = [] }

abbrev element_gzip : Element
element_gzip = record { before = []; word = codes "gzip"; after = [] }

abbrev coding_lists : List HeaderList
coding_lists = (element_gzip, element (codes "br") ∷ []) ∷ (element (codes "zstd"), []) ∷ []

-- A message with two Content-Encoding headers, "gzip, br" and " zstd".
abbrev coded_headers : Entries
coded_headers =
    (content_encoding, (codes "gzip, br", refl))
    ∷ (host_header, (codes "example.com", refl))
    ∷ (content_length, (codes "123", refl))
    ∷ (content_encoding, (codes " zstd", refl))
    ∷ []

multiple_headers_multiple_values :
    extract_encodings http bstr coded_headers ≡ codes "zstd" ∷ codes "br" ∷ codes "gzip" ∷ []
unfolding extract_encodings ◌==◌ flat_map
multiple_headers_multiple_values = refl

listed_values :
    map http.as_bytes (http.get_all coded_headers content_encoding) ≡ map value_text coding_lists
unfolding ◌==◌
listed_values = refl

well_formed_lists : All (λ l. All IsElement (elements l)) coding_lists
well_formed_lists = omega arith

extract_encodings_lem_example :
    extract_encodings http bstr coded_headers ≡ reverse (words coding_lists)
extract_encodings_lem_example =
    extract_encodings_lem bstr http coded_headers coding_lists listed_values well_formed_lists

-- A body of two chunks with a frame of trailers between them.
abbrev two_chunks : Body bodies
two_chunks = from_incoming bodies (some (codes "hello") ∷ none ∷ some (codes "world") ∷ [])

abbrev hello_world : List Bytes
hello_world = codes "hello" ∷ codes "world" ∷ []

abbrev frames : List (Result Frame (Error bodies.errors))
frames = ok (some (codes "hello")) ∷ ok none ∷ ok (some (codes "world")) ∷ []

frames-Yields : Yields (poll_frame bodies) two_chunks frames
unfolding poll_frame
frames-Yields = item refl (item refl (item refl (ended refl)))

poll_next-Yields_example :
    Yields
      (λ b. poll_next bodies codecs.other 3 b)
      two_chunks
      (filter_map (chunk_of bodies codecs.other) frames)
poll_next-Yields_example = poll_next-Yields bodies codecs.other 2 two_chunks frames frames-Yields

poll_next-Returns_example :
    (out : Chunk bodies codecs.other) × (n : ℕ) × Returns bodies codecs.other two_chunks out n
    × (n ≤ length frames)
    × (poll_next bodies codecs.other 4 two_chunks ≡ out)
poll_next-Returns_example =
    poll_next-Returns bodies codecs.other two_chunks frames 4 frames-Yields (omega arith)

two_chunks-Contains : Contains bodies codecs 2 two_chunks (codes "helloworld")
unfolding filter_map flatten
two_chunks-Contains = (hello_world, poll_next-Yields_example, refl)

abbrev codings : List Coding
codings = gzip ∷ br ∷ zstd ∷ []

two_chunks-IsCoded :
    IsCoded bodies codecs 2 http bstr coded_headers two_chunks codings (codes "helloworld")
unfolding ◌==◌
two_chunks-IsCoded = record {
  encoded = refl;
  lists = coding_lists;
  values = refl;
  well_formed = well_formed_lists;
  names = refl;
  contents = two_chunks-Contains;
}

abbrev coded_request : Request http (Body bodies)
coded_request = record {
  method = false;
  uri = record { scheme = none; authority = none; path_and_query = some (codes "/") };
  version = http_11;
  headers = coded_headers;
  extensions = tt;
  body = two_chunks;
}

abbrev coded_response : Response http (Body bodies)
coded_response = record {
  status = 200;
  version = http_11;
  headers = coded_headers;
  extensions = tt;
  body = two_chunks;
}

decode_request-decodes_example :
    (headers : Entries) × (b : Body bodies) × (decode_request bodies codecs 3 http bstr
        coded_request
      ≡ ok (record coded_request { headers = headers; body = b }))
    × IsDecoded bodies codecs 3 http bstr coded_headers headers
    × Contains bodies codecs 2 b (codes "helloworld")
decode_request-decodes_example =
    decode_request-decodes bodies codecs 2 http bstr coded_request codings (codes "helloworld")
      two_chunks-IsCoded

decode_response-decodes_example :
    (headers : Entries) × (b : Body bodies) × (decode_response bodies codecs 3 http bstr
        coded_response
      ≡ ok (record coded_response { headers = headers; body = b }))
    × IsDecoded bodies codecs 3 http bstr coded_headers headers
    × Contains bodies codecs 2 b (codes "helloworld")
decode_response-decodes_example =
    decode_response-decodes bodies codecs 2 http bstr coded_response codings (codes "helloworld")
      two_chunks-IsCoded

decode_request-SucceedsIff_example :
    SucceedsIff
      (is_accepted bodies codecs 3 http bstr coded_headers)
      (decode_request bodies codecs 3 http bstr coded_request)
decode_request-SucceedsIff_example =
    decode_request-SucceedsIff bodies codecs 3 http bstr coded_request

decode_response-SucceedsIff_example :
    SucceedsIff
      (is_accepted bodies codecs 3 http bstr coded_headers)
      (decode_response bodies codecs 3 http bstr coded_response)
decode_response-SucceedsIff_example =
    decode_response-SucceedsIff bodies codecs 3 http bstr coded_response
