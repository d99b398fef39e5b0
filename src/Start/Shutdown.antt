-- ===== src/Start/Shutdown.antt =====
-- The run of `Proxy::start` of src/proxy/mod.rs as a state machine: the loop, the tasks of the
-- connections beside it, the shutdown that comes at any time, and the wait for the tasks.
pub mod Counted
pub mod Invariant
pub mod Waits
pub mod Returns
use hudsucker.Prelude.{
  ℕ, suc, ◌-◌, ◌≡◌, Bool, true, false, ◌&&◌, nat_eq, List, [], ◌∷◌, ◌++◌, Result,
}
use hudsucker.Http.{Request}
use hudsucker.Platform.{Platform}
use hudsucker.Rewind.{Buffers}
use hudsucker.Internal.Runtime.{Runtime}
use hudsucker.Builder.{Parts, Proxy}
use hudsucker.Start.{
  Listening, Pick, accepted, accept_error, cancelled, Service, service, Exchange, Connection,
  served, shut_down,
}

-- What `start` takes from `tokio-graceful`: the state that its `Shutdown` and the guards share.
pub record Graceful (Signal : Type 0) : Type 1 where
  pub Shutdown : Type 0
  -- `Shutdown::new(..)`
  pub new : Signal → Shutdown
  -- whether `cancelled()` of a guard, a weak one too, is ready
  pub is_cancelled : Shutdown → Bool
  -- the future that was given to `new` completes
  pub signal : Shutdown → Shutdown
  -- `spawn_task_fn(..)`, and the end of such a task, which drops its guard
  pub spawn_task : Shutdown → Shutdown
  pub end_task : Shutdown → Shutdown
  -- whether `shutdown().await` has ended
  pub is_shut_down : Shutdown → Bool
  -- how many tasks run
  pub running : Shutdown → ℕ
  pub is_cancelled-new : (signal : Signal) → is_cancelled (new signal) ≡ false
  pub is_cancelled-signal : (x : Shutdown) → is_cancelled (signal x) ≡ true
  pub is_cancelled-spawn_task : (x : Shutdown) → is_cancelled (spawn_task x) ≡ is_cancelled x
  pub is_cancelled-end_task : (x : Shutdown) → is_cancelled (end_task x) ≡ is_cancelled x
  pub running-new : (signal : Signal) → running (new signal) ≡ 0
  pub running-signal : (x : Shutdown) → running (signal x) ≡ running x
  pub running-spawn_task : (x : Shutdown) → running (spawn_task x) ≡ suc (running x)
  pub running-end_task : (x : Shutdown) → running (end_task x) ≡ running x - 1
  -- It waits for the signal, and for every task.
  pub is_shut_down_lem : (x : Shutdown) → is_shut_down x ≡ (is_cancelled x && nat_eq (running x) 0)

-- Where `start` stands: in the loop, at `shutdown().await`, or after it.
pub data Phase : Type 0 where
  accepting : Phase
  waiting : Phase
  finished : Phase

module _ {p : Platform} {buf : Buffers} {r : Runtime p buf} {k : Parts r} (s : Listening k)
    (self : Proxy k) (g : Graceful k.Shutdown) where
  -- Where the task of a connection stands: before and after `graceful_shutdown`, or at its end, with
  -- how the connection went.
  pub data Task : Type 0 where
    serving : Service s self → Task
    draining : Service s self → Task
    over : Service s self → Connection s self → Task

  pub record System : Type 0 where
    pub shutdown : g.Shutdown
    pub phase : Phase
    -- in the order in which they were spawned
    pub tasks : List Task
    -- the branches that the loop has taken
    pub picks : List (Pick r)
    -- how many tasks of tunnels and WebSockets run, which `spawn_with_trace` spawned
    pub detached : ℕ

  abbrev pub begin : System
  begin = record {
    shutdown = g.new self.graceful_shutdown;
    phase = accepting;
    tasks = [];
    picks = [];
    detached = 0;
  }

  pub data Step (y : System) : System → Type 0 where
    signalled :
        g.is_cancelled y.shutdown ≡ false → Step y (record y { shutdown = g.signal y.shutdown })
    accepts :
        (tcp : r.TcpStream) (client_addr : p.SocketAddr)
        → y.phase ≡ accepting
        → Step y (record y {
          shutdown = g.spawn_task y.shutdown;
          tasks = y.tasks ++ (serving (service s self client_addr) ∷ []);
          picks = y.picks ++ (accepted tcp client_addr ∷ []);
        })
    fails_to_accept :
        (e : p.bodies.errors.IoError)
        → y.phase ≡ accepting
        → Step y (record y { picks = y.picks ++ (accept_error e ∷ []) })
    breaks :
        y.phase ≡ accepting
        → g.is_cancelled y.shutdown ≡ true
        → Step y (record y { phase = waiting; picks = y.picks ++ (cancelled ∷ []) })
    drains :
        (before : List Task) (c : Service s self) (after : List Task)
        → y.tasks ≡ before ++ serving c ∷ after
        → g.is_cancelled y.shutdown ≡ true
        → Step y (record y { tasks = before ++ draining c ∷ after })
    ends :
        (before : List Task) (c : Service s self) (after : List Task)
        (reqs : List (Exchange s self)) (res : Result (Unit {0}) r.ServeError)
        → y.tasks ≡ before ++ serving c ∷ after
        → Step y (record y {
          shutdown = g.end_task y.shutdown;
          tasks = before ++ over c (served reqs res) ∷ after;
        })
    ends_late :
        (before : List Task) (c : Service s self) (after : List Task)
        (reqs late : List (Exchange s self)) (res : Result (Unit {0}) r.ServeError)
        → y.tasks ≡ before ++ draining c ∷ after
        → Step y (record y {
          shutdown = g.end_task y.shutdown;
          tasks = before ++ over c (shut_down reqs late res) ∷ after;
        })
    returns :
        y.phase ≡ waiting
        → g.is_shut_down y.shutdown ≡ true
        → Step y (record y { phase = finished })

  -- Beside these, a connection's request or another such task spawns a task with
  -- `spawn_with_trace`, or such a task ends; `tokio-graceful` hears of none of this.
  pub data Aside (y : System) : System → Type 0 where
    detaches :
        (before : List Task) (c : Service s self) (after : List Task)
        → y.tasks ≡ before ++ serving c ∷ after
        → Aside y (record y { detached = suc y.detached })
    detaches_late :
        (before : List Task) (c : Service s self) (after : List Task)
        → y.tasks ≡ before ++ draining c ∷ after
        → Aside y (record y { detached = suc y.detached })
    detaches_more : (n : ℕ) → y.detached ≡ suc n → Aside y (record y { detached = suc y.detached })
    detached_ends : (n : ℕ) → y.detached ≡ suc n → Aside y (record y { detached = n })

  -- So many steps lead from a system to another, beside what detached tasks do.
  pub data Steps (y : System) : ℕ → System → Type 0 where
    stay : Steps y 0 y
    step : {n : ℕ} {z w : System} → Steps y n z → Step z w → Steps y (suc n) w
    aside : {n : ℕ} {z w : System} → Steps y n z → Aside z w → Steps y n w
