-- ===== src/Tests/PartExamples.antt =====
-- Tests of the models of src/rewind.rs, src/body.rs and src/lib.rs, and the theorems about them at
-- concrete inputs.
use hudsucker.Prelude.{
  ℕ, ◌≡◌, refl, Bool, true, false, none, some, List, [], ◌∷◌, ◌++◌, codes, Result, ok, err,
}
use hudsucker.Rewind.{new, rewound}
use hudsucker.Rewind.Replay.{reads, Replays, reads-Replays}
use hudsucker.Handler.{
  WebSocketContext, client_to_server, WebSocketHandler, Forwarder, handle_websocket,
}
use hudsucker.Handler.Messages.{received, handle_all, outgoing, send_all, handle_websocket-sends}
use hudsucker.Tests.IoSample.{platform, buffers, connection}

-- Three buffers, read into from a connection with four bytes put back in front.
reads-Replays_example :
    Replays buffers connection
      (codes "GET ")
      (codes "/ HTTP/1.1")
      ((3, []) ∷ (3, []) ∷ (5, []) ∷ [])
      (reads buffers
        (rewound buffers connection)
        (new (codes "/ HTTP/1.1") (codes "GET "))
        ((3, []) ∷ (3, []) ∷ (5, []) ∷ []))
reads-Replays_example =
    reads-Replays buffers connection ((3, []) ∷ (3, []) ∷ (5, []) ∷ []) (codes "/ HTTP/1.1")
      (codes "GET ") (refl, (refl, (refl, tt)))

-- A sink that keeps the messages.
abbrev send : List ℕ → ℕ → Result (Unit {0}) ℕ × List ℕ
send sent m = (ok tt, sent ++ (m ∷ []))

-- A handler that counts the messages and drops every second one.
abbrev dropping : WebSocketHandler platform
dropping = record {
  State = Bool;
  handle_message =
      λ s ctx m. (elim s [ true ↦ false | false ↦ true ], elim s [ true ↦ none | false ↦ some m ]);
  own_handle_websocket = none;
}

abbrev ctx : WebSocketContext platform
ctx =
    client_to_server 127
      (record { scheme = none; authority = none; path_and_query = some (codes "/") })

abbrev idle : Forwarder platform dropping send ctx
idle = record { handler = false; sink = []; logged = [] }

abbrev messages : List (Result ℕ ℕ)
messages = ok 1 ∷ ok 2 ∷ ok 3 ∷ err 4 ∷ ok 5 ∷ []

sent_messages : (handle_websocket platform dropping send ctx messages idle).sink ≡ 1 ∷ 3 ∷ 1000 ∷ []
unfolding handle_websocket
sent_messages = refl

handle_websocket-sends_example :
    ((handle_websocket platform dropping send ctx messages idle).sink
      ≡ send_all platform dropping ctx send [] (outgoing platform dropping ctx false messages))
    × ((handle_websocket platform dropping send ctx messages idle).handler
        ≡ (handle_all platform dropping ctx false (received messages)).0)
handle_websocket-sends_example = handle_websocket-sends platform dropping ctx send messages idle
