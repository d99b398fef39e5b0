-- ===== src/Start/Shutdown/Waits.antt =====
-- The shutdown of `Proxy::start` of src/proxy/mod.rs: what has happened when it returns.
use hudsucker.Prelude.{ℕ, ◌≡◌, refl, sym, ap, ◌∙◌, true, List, [], ◌∷◌, map, arith}
use hudsucker.Platform.{Platform}
use hudsucker.Rewind.{Buffers}
use hudsucker.Internal.Runtime.{Runtime}
use hudsucker.Builder.{Parts, Proxy}
use hudsucker.Start.{Listening, Service, Connection, accept_loop}
use hudsucker.Start.Shutdown.{
  Graceful, finished, Task, serving, draining, over, System, begin, Steps, stay, step, aside,
}
use hudsucker.Start.Shutdown.Counted.{is_left, Tasks, spawned_of, service_of, count}
use hudsucker.Start.Shutdown.Invariant.{IsGood, begin-IsGood, Step-IsGood, Aside-IsGood}

module _ {p : Platform} {buf : Buffers} {r : Runtime p buf} {k : Parts r} (s : Listening k)
    (self : Proxy k) (g : Graceful k.Shutdown) where
  abbrev pub Ended : Type 0
  Ended = Service s self × Connection s self

  abbrev pub task_of : Ended → Task s self g
  task_of (c, conn) = over c conn

  -- How `start` may have returned.
  pub record IsFinished (y : System s self g) : Type 0 where
    pub is_signalled : g.is_cancelled y.shutdown ≡ true
    pub connections : List Ended
    pub tasks : y.tasks ≡ map task_of connections
    pub spawned : map (λ x. x.0) connections ≡ spawned_of s self g (accept_loop s self y.picks).0
    pub is_left : (accept_loop s self y.picks).1 ≡ true

  ended_tasks :
      (tasks : Tasks s self g)
      → count s self g tasks ≡ 0
      → (connections : List Ended) × (tasks ≡ map task_of connections)
        × (map (λ x. x.0) connections ≡ map (service_of s self g) tasks)
  ended_tasks [] e = ([], refl, refl)
  ended_tasks (serving c ∷ tasks) e = absurd (omega (arith, e))
  ended_tasks (draining c ∷ tasks) e = absurd (omega (arith, e))
  ended_tasks (over c conn ∷ tasks) e =
      let (connections, same, services) = ended_tasks tasks (omega (arith, e)) in
      ((c, conn) ∷ connections, ap (λ l. over c conn ∷ l) same, ap (λ l. c ∷ l) services)

  pub Steps-IsGood :
      {y : System s self g} {n : ℕ} {z : System s self g}
      → Steps s self g y n z
      → IsGood s self g y
      → IsGood s self g z
  Steps-IsGood stay good = good
  Steps-IsGood (step before last) good = Step-IsGood s self g last (Steps-IsGood before good)
  Steps-IsGood (aside before last) good = Aside-IsGood s self g last (Steps-IsGood before good)

  -- In every state of a run, in any interleaving of the loop with the tasks and with the shutdown:
  -- the library counts exactly the tasks of connections that run; there is one task for each
  -- connection that the loop accepted, in order, with the clones made for it; the loop was left
  -- exactly if it broke, and then the shutdown had come; and once `start` has returned no task of a
  -- connection runs.
  pub begin-Steps-IsGood :
      {n : ℕ} {y : System s self g} → Steps s self g (begin s self g) n y → IsGood s self g y
  begin-Steps-IsGood steps = Steps-IsGood steps (begin-IsGood s self g)

  -- When `start` has returned, in any interleaving of its loop with the tasks of the connections
  -- and with the shutdown: the shutdown had come, the loop was left at it, and the tasks that were
  -- spawned are exactly one for each connection that the loop accepted before it left, in order,
  -- with the clones made for that connection, and each of them has run to its end. Nothing is known
  -- of the tasks of tunnels and WebSockets, which may still run.
  pub Steps-IsFinished :
      {n : ℕ} {y : System s self g}
      → Steps s self g (begin s self g) n y
      → y.phase ≡ finished
      → IsFinished y
  Steps-IsFinished {y = y} steps e =
      let good = begin-Steps-IsGood steps in
      let (connections, same, services) = ended_tasks y.tasks (good.ended e) in
      record {
        is_signalled = good.cancels (ap (λ phase. is_left phase) e);
        connections = connections;
        tasks = same;
        spawned = services ∙ sym good.spawns;
        is_left = good.leaves ∙ ap (λ phase. is_left phase) e;
      }
