-- ===== src/Tests/InternalExamples.antt =====
-- Tests of the models of src/proxy/internal.rs, and the theorems about them at concrete inputs.
use hudsucker.Prelude.{
  ◌≡◌, refl, Bool, true, false, Option, none, some, List, [], ◌∷◌, Bytes, codes, ◌==◌, done,
}
use hudsucker.Http.{
  Request, UriParts, http_11, http_scheme, host_header, cookie_header, map_request,
}
use hudsucker.Body.{from_incoming}
use hudsucker.Platform.{BodyRequest}
use hudsucker.Handler.{noop_http, noop_websocket}
use hudsucker.Internal.Runtime.{InternalProxy}
use hudsucker.Internal.Effect.{Reply}
use hudsucker.Internal.Normalize.{normalize_request}
use hudsucker.Internal.Normalize.Laws.{IsNormalized, normalize_request-IsNormalized}
use hudsucker.Internal.Upgrade.{bare, upgrade_websocket, websocket_task}
use hudsucker.Internal.Upgrade.Ends.{Ends, websocket_task-Ends}
use hudsucker.Internal.Upgrade.Outcomes.{Upgrades, upgrade_websocket-Upgrades}
use hudsucker.Internal.Routing.{proxy}
use hudsucker.Internal.Routing.Answers.{Answers, proxy-Answers}
use hudsucker.Tests.HttpSample.{http, Value}
use hudsucker.Tests.BstrSample.{bstr}
use hudsucker.Tests.IoSample.{Frame, bodies, platform, runtime}

abbrev pub uri : Option Bytes → Option Bytes → Option Bytes → UriParts Bytes Bytes
uri scheme authority path = record { scheme = scheme; authority = authority; path_and_query = path }

abbrev pub home : UriParts Bytes Bytes
home = uri (some http_scheme) (some (codes "example.com")) (some (codes "/"))

abbrev pub foo : Value
foo = (codes "foo=bar", refl)

abbrev pub bar : Value
bar = (codes "baz=qux", refl)

abbrev pub host_value : Value
host_value = (codes "example.com", refl)

-- A request with a Host header and two cookies, for a URI and with a body of one chunk.
abbrev pub get : UriParts Bytes Bytes → Bool → Request http (List Frame)
get u connect = record {
  method = connect;
  uri = u;
  version = http_11;
  headers = (host_header, host_value) ∷ (cookie_header, foo) ∷ (cookie_header, bar) ∷ [];
  extensions = tt;
  body = some (codes "body") ∷ [];
}

abbrev pub plain_get : BodyRequest platform
plain_get = map_request (from_incoming bodies) (get home false)

abbrev pub connect_request : BodyRequest platform
connect_request =
    map_request (from_incoming bodies) (get (uri none (some (codes "example.com")) none) true)

abbrev pub self : InternalProxy runtime (noop_http platform) (noop_websocket platform)
self = record {
  ca = tt;
  client = tt;
  server = tt;
  http_handler = tt;
  websocket_handler = tt;
  websocket_connector = none;
  client_addr = 127;
}

-- The test `joins_cookies` of the source.
joins_cookies :
    normalize_request http bstr plain_get
    ≡ done (record plain_get { headers = (cookie_header, (codes "foo=bar; baz=qux", refl)) ∷ [] })
unfolding normalize_request ◌==◌
joins_cookies = refl

normalize_request-IsNormalized_example :
    (after : BodyRequest platform) × (normalize_request http bstr plain_get ≡ done after)
    × IsNormalized http bstr plain_get after
normalize_request-IsNormalized_example = normalize_request-IsNormalized http bstr plain_get

abbrev normal_get : BodyRequest platform
normal_get = record plain_get { headers = (cookie_header, (codes "foo=bar; baz=qux", refl)) ∷ [] }

normalizes_again : normalize_request http bstr normal_get ≡ done normal_get
unfolding normalize_request ◌==◌
normalizes_again = refl

proxy-Answers_example :
    (reply : Reply runtime (noop_http platform) (noop_websocket platform)) × (proxy bstr runtime
        (noop_http platform)
        (noop_websocket platform)
        self
        (get home false)
      ≡ done reply)
    × Answers bstr runtime (noop_http platform) (noop_websocket platform) self plain_get reply
proxy-Answers_example =
    proxy-Answers bstr runtime (noop_http platform) (noop_websocket platform) self (get home false)

abbrev pub Bare : Type 0
Bare = Request http (Unit {0})

upgrade_websocket-Upgrades_example :
    Upgrades runtime
      (noop_http platform)
      (noop_websocket platform)
      self
      plain_get
      (upgrade_websocket runtime (noop_http platform) (noop_websocket platform) self plain_get)
upgrade_websocket-Upgrades_example =
    upgrade_websocket-Upgrades runtime (noop_http platform) (noop_websocket platform) self plain_get

abbrev pub bare_get : Bare
bare_get = bare runtime (noop_http platform) (noop_websocket platform) plain_get home

websocket_task-Ends_example :
    Ends runtime
      (noop_http platform)
      (noop_websocket platform)
      self
      bare_get
      7
      (websocket_task runtime (noop_http platform) (noop_websocket platform) self 7 bare_get)
websocket_task-Ends_example =
    websocket_task-Ends runtime (noop_http platform) (noop_websocket platform) self bare_get 7
