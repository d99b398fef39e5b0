-- ===== src/Tests/ShutdownExamples.antt =====
-- A run of the state machine of src/proxy/mod.rs with a shutdown, and the theorems about it there.
use hudsucker.Prelude.{
  ℕ, suc, ◌+◌, ◌-◌, ◌*◌, ◌≤◌, ◌≡◌, ◌⊎◌, refl, Bool, true, false, ◌&&◌, nat_eq, [], ◌∷◌, codes, ok,
}
use hudsucker.Start.{Service, service, served, shut_down, accepted, accept_error, cancelled}
use hudsucker.Start.Shutdown.{
  Graceful, waiting, finished, serving, draining, over, System, begin, signalled, accepts,
  fails_to_accept, breaks, drains, ends, ends_late, returns, Steps, stay, step, aside, detaches,
}
use hudsucker.Start.Shutdown.Counted.{count}
use hudsucker.Start.Shutdown.Waits.{IsFinished, Steps-IsFinished, begin-Steps-IsGood}
use hudsucker.Start.Shutdown.Invariant.{IsGood}
use hudsucker.Start.Shutdown.Returns.{Steps-returns, GoesOn}
use hudsucker.Tests.StartExamples.{noop_proxy, listening}

-- Whether the signal came, and how many tasks run.
abbrev graceful : Graceful Bool
graceful = record {
  Shutdown = Bool × ℕ;
  new = λ signal. (false, 0);
  is_cancelled = λ x. x.0;
  signal = λ x. (true, x.1);
  spawn_task = λ x. (x.0, suc x.1);
  end_task = λ x. (x.0, x.1 - 1);
  is_shut_down = λ x. x.0 && nat_eq x.1 0;
  running = λ x. x.1;
  is_cancelled-new = λ signal. refl;
  is_cancelled-signal = λ x. refl;
  is_cancelled-spawn_task = λ x. refl;
  is_cancelled-end_task = λ x. refl;
  running-new = λ signal. refl;
  running-signal = λ x. refl;
  running-spawn_task = λ x. refl;
  running-end_task = λ x. refl;
  is_shut_down_lem = λ x. refl;
}

abbrev Run : ℕ → System listening noop_proxy graceful → Type 0
Run n y = Steps listening noop_proxy graceful (begin listening noop_proxy graceful) n y

abbrev first : Service listening noop_proxy
first = service listening noop_proxy 10

abbrev second : Service listening noop_proxy
second = service listening noop_proxy 11

-- Two connections are accepted, and a tunnel is opened on the first; the signal comes, and the loop
-- still accepts a failure before it breaks.
abbrev left : System listening noop_proxy graceful
left = record {
  shutdown = (true, 2);
  phase = waiting;
  tasks = serving first ∷ serving second ∷ [];
  picks = accepted (codes "a") 10 ∷ accepted (codes "b") 11 ∷ accept_error 24 ∷ cancelled ∷ [];
  detached = 1;
}

leaves : Run 5 left
leaves =
    step
      (step
        (step
          (step (aside (step stay (accepts (codes "a") 10 refl)) (detaches [] first [] refl))
            (accepts (codes "b") 11 refl))
          (signalled refl))
        (fails_to_accept 24 refl))
      (breaks refl refl)

begin-Steps-IsGood_example : IsGood listening noop_proxy graceful left
begin-Steps-IsGood_example = begin-Steps-IsGood listening noop_proxy graceful leaves

-- The second connection ends without being told; the first is told to shut down, and ends. The task
-- of the tunnel still runs when `start` has returned.
abbrev last : System listening noop_proxy graceful
last = record left {
  shutdown = (true, 0);
  phase = finished;
  tasks = over first (shut_down [] [] (ok tt)) ∷ over second (served [] (ok tt)) ∷ [];
}

drains_and_returns : Steps listening noop_proxy graceful left 4 last
drains_and_returns =
    step
      (step
        (step (step stay (drains [] first (serving second ∷ []) refl refl))
          (ends (draining first ∷ []) second [] [] (ok tt) refl))
        (ends_late [] first (over second (served [] (ok tt)) ∷ []) [] [] (ok tt) refl))
      (returns refl refl)

whole : Run 9 last
whole =
    step
      (step
        (step (step leaves (drains [] first (serving second ∷ []) refl refl))
          (ends (draining first ∷ []) second [] [] (ok tt) refl))
        (ends_late [] first (over second (served [] (ok tt)) ∷ []) [] [] (ok tt) refl))
      (returns refl refl)

Steps-IsFinished_example : IsFinished listening noop_proxy graceful last
Steps-IsFinished_example = Steps-IsFinished listening noop_proxy graceful whole refl

Steps-returns_example :
    (4 ≤ 2 * count listening noop_proxy graceful left.tasks + 1)
    × ((last.phase ≡ finished) ⊎ GoesOn listening noop_proxy graceful last)
Steps-returns_example = Steps-returns listening noop_proxy graceful leaves refl drains_and_returns
