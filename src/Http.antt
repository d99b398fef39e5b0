-- ===== src/Http.antt =====
-- The types and operations of the `http` crate (re-exported by `hyper`) that the proxy uses, as an
-- interface: the crate is not part of the repository, so its types are parameters and its
-- documented behaviour is a law. `Request` and `Response` hold the parts that `into_parts` gives.
use hudsucker.Prelude.{
  ℕ, ◌≡◌, Bool, Option, none, some, List, [], ◌∷◌, Bytes, codes, ◌==◌, is_empty, first, All, not,
  ◌≤◌, ◌≢◌, ◌⊎◌, if◌then◌else◌,
}

-- `http::Version`.
pub data Version : Type 0 where
  http_09 http_10 http_11 http_2 http_3 : Version

-- `http::uri::Scheme`, by its text.
abbrev pub Scheme : Type 0
Scheme = Bytes

abbrev pub http_scheme : Scheme
http_scheme = codes "http"

abbrev pub https_scheme : Scheme
https_scheme = codes "https"

-- `http::HeaderName`, in its canonical lower case.
abbrev pub HeaderName : Type 0
HeaderName = Bytes

abbrev pub host_header : HeaderName
host_header = codes "host"

abbrev pub cookie_header : HeaderName
cookie_header = codes "cookie"

abbrev pub content_encoding : HeaderName
content_encoding = codes "content-encoding"

abbrev pub content_length : HeaderName
content_length = codes "content-length"

-- `http::StatusCode`.
abbrev pub StatusCode : Type 0
StatusCode = ℕ

-- `http::uri::Parts`.
pub record UriParts (Authority PathAndQuery : Type 0) : Type 0 where
  pub scheme : Option Scheme
  pub authority : Option Authority
  pub path_and_query : Option PathAndQuery

-- The bytes that a header value may hold: visible ones, space and tab.
abbrev pub IsValueByte : ℕ → Type 0
IsValueByte b = (b ≡ 9) ⊎ ((32 ≤ b) × (b ≤ 255) × (b ≢ 127))

pub record Http : Type 1 where
  pub Method : Type 0
  -- `method == Method::CONNECT`
  pub is_connect : Method → Bool
  pub Authority : Type 0
  -- `Authority::host`
  pub host : Authority → Bytes
  pub PathAndQuery : Type 0
  pub Uri : Type 0
  pub into_parts : Uri → UriParts Authority PathAndQuery
  pub from_parts : UriParts Authority PathAndQuery → Option Uri
  pub Extensions : Type 0
  pub no_extensions : Extensions
  pub HeaderValue : Type 0
  pub as_bytes : HeaderValue → Bytes
  -- `HeaderValue::try_from`
  pub from_bytes : Bytes → Option HeaderValue
  pub HeaderMap : Type 0
  pub no_headers : HeaderMap
  pub contains_key : HeaderMap → HeaderName → Bool
  -- the values of a name in the order in which they were added
  pub get_all : HeaderMap → HeaderName → List HeaderValue
  -- drops all values of a name and returns the first
  pub remove : HeaderMap → HeaderName → Option HeaderValue × HeaderMap
  -- replaces all values of a name by one
  pub insert : HeaderMap → HeaderName → HeaderValue → HeaderMap
  -- An absolute URI has a scheme, an authority and a path; a scheme without either of the others
  -- is refused.
  pub from_parts-absolute :
      (s : Scheme) (a : Authority) (p : PathAndQuery)
      → let parts : UriParts Authority PathAndQuery = record {
        scheme = some s;
        authority = some a;
        path_and_query = some p;
      } in
        (u : Uri) × (from_parts parts ≡ some u) × (into_parts u ≡ parts)
  pub from_parts-no_authority :
      (s : Scheme) (p : Option PathAndQuery)
      → from_parts (record { scheme = some s; authority = none; path_and_query = p }) ≡ none
  pub from_parts-no_path :
      (s : Scheme) (a : Option Authority)
      → from_parts (record { scheme = some s; authority = a; path_and_query = none }) ≡ none
  pub as_bytes-All : (v : HeaderValue) → All IsValueByte (as_bytes v)
  pub from_bytes-valid :
      (b : Bytes)
      → All IsValueByte b
      → (v : HeaderValue) × (from_bytes b ≡ some v) × (as_bytes v ≡ b)
  pub get_all-no_headers : (k : HeaderName) → get_all no_headers k ≡ []
  pub contains_key_lem :
      (m : HeaderMap) (k : HeaderName) → contains_key m k ≡ not (is_empty (get_all m k))
  pub remove-first : (m : HeaderMap) (k : HeaderName) → (remove m k).0 ≡ first (get_all m k)
  pub get_all-remove :
      (m : HeaderMap) (k j : HeaderName)
      → get_all (remove m k).1 j ≡ (if k == j then [] else get_all m j)
  pub get_all-insert :
      (m : HeaderMap) (k j : HeaderName) (v : HeaderValue)
      → get_all (insert m k v) j ≡ (if k == j then v ∷ [] else get_all m j)

module _ (h : Http) (B : Type 0) where
  pub record Request : Type 0 where
    pub method : h.Method
    pub uri : h.Uri
    pub version : Version
    pub headers : h.HeaderMap
    pub extensions : h.Extensions
    pub body : B

  pub record Response : Type 0 where
    pub status : StatusCode
    pub version : Version
    pub headers : h.HeaderMap
    pub extensions : h.Extensions
    pub body : B

-- `Response::map`.
abbrev pub map_body : {h : Http} {A B : Type 0} → (A → B) → Response h A → Response h B
map_body f res = record {
  status = res.status;
  version = res.version;
  headers = res.headers;
  extensions = res.extensions;
  body = f res.body;
}

-- `Request::map`.
abbrev pub map_request : {h : Http} {A B : Type 0} → (A → B) → Request h A → Request h B
map_request f req = record {
  method = req.method;
  uri = req.uri;
  version = req.version;
  headers = req.headers;
  extensions = req.extensions;
  body = f req.body;
}
