-- ===== src/Tests/IoSample.antt =====
-- Implementations of the interfaces for bodies, readers, buffers and the runtime. A body is the
-- list of its chunks, a stream is its answer to each poll, a connection is the list of what its
-- reads give.
use hudsucker.Prelude.{
  ℕ, zero, suc, ◌+◌, ◌-◌, ◌≤◌, ◌≡◌, refl, ap, sym, not, is_empty, Bool, true, false, Option, none,
  some, List, [], ◌∷◌, ◌++◌, map, flatten, Bytes, codes, take, drop, length, ready, done, Result,
  ok, err, arith, length-take, ok-injective,
}
use hudsucker.Http.{Request, Response, http_11}
use hudsucker.Error.{Errors, Error}
use hudsucker.Body.{Bodies, HttpBody, Next}
use hudsucker.Platform.{Platform}
use hudsucker.Rewind.{Buffers, AsyncIo}
use hudsucker.Decoder.Readers.{Codecs, Yields, ended, item, waits}
use hudsucker.Internal.Runtime.{Runtime}
use hudsucker.Tests.HttpSample.{http, get_all}
use hudsucker.Tests.AuthoritySample.{Config, config_for}

abbrev pub errors : Errors
errors = record { RcgenError = ℕ; HyperError = ℕ; IoError = ℕ }

-- `none` is a frame of trailers.
abbrev pub Frame : Type 0
Frame = Option Bytes

abbrev pub poll_list : {E : Type 0} → List Frame → Next (Result Frame E) × List Frame
poll_list [] = (ready none, [])
poll_list (f ∷ fs) = (ready (some (ok f)), fs)

-- A lower bound, and perhaps an upper one.
abbrev pub SizeHint : Type 0
SizeHint = ℕ × Option ℕ

abbrev pub bytes_of : List Frame → ℕ
bytes_of [] = 0
bytes_of (none ∷ fs) = 0 + bytes_of fs
bytes_of (some b ∷ fs) = length b + bytes_of fs

abbrev pub listed : (E : Type 0) → HttpBody Frame SizeHint E
listed E = record {
  Carrier = List Frame;
  poll_frame = poll_list;
  is_end_stream = λ fs. false;
  size_hint = λ fs. (bytes_of fs, some (bytes_of fs));
}

-- A stream as its answer to each poll.
abbrev pub Behaviour : Type 0 → Type 0
Behaviour A = ℕ → Next A

abbrev pub shift : {A : Type 0} → Behaviour A → Next A × Behaviour A
shift b = (b 0, λ n. b (suc n))

abbrev pub behaviour : {S A : Type 0} → (S → Next A × S) → S → Behaviour A
behaviour poll s zero = (poll s).0
behaviour poll s (suc n) = behaviour poll (poll s).1 n

abbrev pub bodies : Bodies
bodies = record {
  errors = errors;
  Frame = Frame;
  data_frame = λ b. some b;
  into_data = λ f. f;
  SizeHint = SizeHint;
  box_body = record {
    Carrier = Behaviour (Result Frame (Error errors));
    poll_frame = shift;
    is_end_stream = λ b. false;
    size_hint = λ b. (0, none);
  };
  collected = listed ⊥;
  empty = record {
    Carrier = Unit {0};
    poll_frame = λ u. (ready none, u);
    is_end_stream = λ b. true;
    size_hint = λ b. (0, none);
  };
  full = listed ⊥;
  incoming = listed ℕ;
  string = listed ⊥;
  empty_new = tt;
  full_new = λ b. some b ∷ [];
  box_stream = behaviour;
  into_data-data_frame = λ b. refl;
  poll_frame-box_stream = λ poll s. refl;
}

abbrev pub platform : Platform
platform = record {
  http = http;
  bodies = bodies;
  SocketAddr = ℕ;
  ClientError = ℕ;
  Message = ℕ;
  close = 1000;
  WsError = ℕ;
  is_connection_closed = λ e. false;
}

abbrev pub buffers : Buffers
buffers = record {
  split_to = λ n b. (take n b, drop n b);
  ReadBuf = ℕ × Bytes;
  filled = λ b. b.1;
  remaining = λ b. b.0;
  put_slice = λ s b. (b.0 - length s, b.1 ++ s);
  split_to_lem = λ n b h. refl;
  filled-put_slice = λ s b h. refl;
  remaining-put_slice = λ s b h. refl;
}

-- The poll of a stream and the poll of its behaviour agree.
behaviour-Yields :
    {S A : Type 0} (poll : S → Next A × S) {s : S} {items : List A}
    → Yields poll s items
    → Yields shift (behaviour poll s) items
behaviour-Yields poll (ended {s} {s'} e) = ended (ap (λ x. (x.0, behaviour poll x.1)) e)
behaviour-Yields poll (item {s} {s'} e y) =
    item (ap (λ x. (x.0, behaviour poll x.1)) e) (behaviour-Yields poll y)
behaviour-Yields poll (waits {s} {s'} e y) =
    waits (ap (λ x. (x.0, behaviour poll x.1)) e) (behaviour-Yields poll y)

abbrev pub Chunks : Type 0
Chunks = Behaviour (Result Bytes ℕ)

abbrev pub Reads : Chunks → Bytes → Type 0
Reads r b = (chunks : List Bytes) × Yields shift r (map ok chunks) × (flatten chunks ≡ b)

pub stream_reader-Reads :
    {S : Type 0} (poll : S → Next (Result Bytes ℕ) × S) (s : S) (chunks : List Bytes)
    → Yields poll s (map ok chunks)
    → Reads (behaviour poll s) (flatten chunks)
stream_reader-Reads poll s chunks y = (chunks, behaviour-Yields poll y, refl)

-- The codings change nothing.
abbrev pub codecs : Codecs bodies
codecs = record {
  other = λ e. 5;
  BufRead = Chunks;
  Reader = Chunks;
  stream_reader = behaviour;
  buf_reader = λ r. r;
  gzip_decoder = λ r. r;
  zlib_decoder = λ r. r;
  brotli_decoder = λ r. r;
  zstd_decoder = λ r. r;
  ReaderStream = Chunks;
  reader_stream = λ r. r;
  poll_stream = shift;
  gzip = λ b. b;
  zlib = λ b. b;
  brotli = λ b. b;
  zstd = λ b. b;
  BufReads = Reads;
  Reads = Reads;
  stream_reader-BufReads = stream_reader-Reads;
  buf_reader-BufReads = λ r b h. h;
  gzip_decoder-Reads = λ r b h. h;
  zlib_decoder-Reads = λ r b h. h;
  brotli_decoder-Reads = λ r b h. h;
  zstd_decoder-Reads = λ r b h. h;
  poll_stream-Yields = λ r b h. h;
}

-- A connection from which these bytes are read.
abbrev pub connection : AsyncIo buffers
connection = record {
  Io = Bytes;
  IoError = ℕ;
  poll_read = λ io buf.
      (ready (ok tt), (buf.0 - length (take buf.0 io), buf.1 ++ take buf.0 io), drop buf.0 io);
  poll_write = λ io b. (ready (ok (length b)), io);
  poll_write_vectored = λ io bs. (ready (ok (length bs)), io);
  poll_flush = λ io. (ready (ok tt), io);
  poll_shutdown = λ io. (ready (ok tt), io);
  is_write_vectored = λ io. false;
}

pub read-le :
    (n : ℕ) (io b : Bytes) → ◌≡◌ {A = Result Bytes ℕ} (ok (take n io)) (ok b) → length b ≤ n
read-le n io b e = omega (arith, ap length (ok-injective e), length-take n io)

abbrev pub greeting : Response http (List Frame)
greeting = record {
  status = 200;
  version = http_11;
  headers = [];
  extensions = tt;
  body = some (codes "hi") ∷ [];
}

pub upgraded_request :
    {A : Type 0} {a b : A} {left left' : Request http (Unit {0})} {n m : ℕ}
    → ◌≡◌ {A = Result (A × ℕ × Request http (Unit {0})) ℕ} (ok (a, n, left)) (ok (b, m, left'))
    → left' ≡ left
upgraded_request e = sym (ap (λ x. x.2) (ok-injective e))

-- The client answers with `greeting`; every server is reached.
abbrev pub runtime : Runtime platform buffers
runtime = record {
  Client = Unit {0};
  request = λ c req. ok greeting;
  Ca = Unit {0};
  ServerConfig = Config;
  gen_server_config = λ ca authority. done (config_for authority 100);
  HyperError = ℕ;
  upgraded = connection;
  upgrade_on = λ req. (ok (codes "GET / HTTP/1.1"), req);
  read = λ n io. (ok (take n io), drop n io);
  read-le = read-le;
  TlsStream = Bytes;
  tls_accept = λ config io. ok io.inner;
  TcpStream = Bytes;
  connect = λ authority. ok authority;
  copy_bidirectional = λ io server. ok tt;
  Server = Unit {0};
  ServeError = ℕ;
  serve_plain = λ server io. ok tt;
  serve_tls = λ server io. ok tt;
  to_string = λ e. [];
  is_upgrade_request = λ req. not (is_empty (get_all req.headers (codes "upgrade")));
  Websocket = ℕ;
  upgrade = λ req. ok (record greeting { status = 101; body = [] }, 7, req);
  upgrade-uri = λ req left res websocket e. ap (λ l. l.uri) (upgraded_request e);
  WsStream = ℕ;
  accept_websocket = λ w. ok w;
  Connector = Unit {0};
  tls_client = true;
  connect_tls = λ req c. ok 8;
  connect_plain = λ req. err 9;
  WsSink = ℕ × Bool;
  WsSource = ℕ × Bool;
  split = λ w. ((w, true), (w, false));
}
