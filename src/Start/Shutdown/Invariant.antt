-- ===== src/Start/Shutdown/Invariant.antt =====
-- The invariant of the run of `Proxy::start` of src/proxy/mod.rs: its tasks and those that
-- `tokio-graceful` counts, and the connections that the loop accepted.
use hudsucker.Prelude.{
  suc, ℕ, ◌+◌, ◌≡◌, refl, sym, ap, ◌∙◌, true, ◌&&◌, nat_eq, and-left, and-right, [], ◌∷◌, ◌++◌, map,
  map-append, append-nil, arith,
}
use hudsucker.Platform.{Platform}
use hudsucker.Rewind.{Buffers}
use hudsucker.Internal.Runtime.{Runtime}
use hudsucker.Builder.{Parts, Proxy}
use hudsucker.Start.{
  Listening, Pick, accepted, accept_error, cancelled, service, served, shut_down, accept_loop,
}
use hudsucker.Start.Shutdown.{
  Graceful, Phase, accepting, finished, Task, serving, draining, over, System, begin, Step, Aside,
  detaches, detaches_late, detaches_more, detached_ends, signalled, accepts, fails_to_accept,
  breaks, drains, ends, ends_late, returns,
}
use hudsucker.Start.Shutdown.Counted.{
  is_left, Tasks, service_of, spawned_of, weight, count, count-append, spawned_of-append,
  accept_loop-append, services_of,
}

module _ {p : Platform} {buf : Buffers} {r : Runtime p buf} {k : Parts r} (s : Listening k)
    (self : Proxy k) (g : Graceful k.Shutdown) where
  -- The invariant: the library counts the tasks that run, one task was spawned for each connection
  -- that the loop accepted, and the loop was left only for the signal.
  pub record IsGood (y : System s self g) : Type 0 where
    pub counted : g.running y.shutdown ≡ count s self g y.tasks
    pub spawns :
        spawned_of s self g (accept_loop s self y.picks).0 ≡ map (service_of s self g) y.tasks
    pub leaves : (accept_loop s self y.picks).1 ≡ is_left y.phase
    pub cancels : is_left y.phase ≡ true → g.is_cancelled y.shutdown ≡ true
    pub ended : y.phase ≡ finished → count s self g y.tasks ≡ 0

  pub begin-IsGood : IsGood (begin s self g)
  unfolding accept_loop
  begin-IsGood = record {
    counted = g.running-new self.graceful_shutdown;
    spawns = refl;
    leaves = refl;
    cancels = λ e. absurd cc;
    ended = λ e. refl;
  }

  -- A pick of the loop.
  picks-IsGood :
      (y : System s self g) (pick : Pick r)
      → y.phase ≡ accepting
      → IsGood y
      → (accept_loop s self (y.picks ++ (pick ∷ []))).1 ≡ (accept_loop s self (pick ∷ [])).1
        × (spawned_of s self g (accept_loop s self (y.picks ++ (pick ∷ []))).0
            ≡ map (service_of s self g) y.tasks
              ++ spawned_of s self g (accept_loop s self (pick ∷ [])).0)
  picks-IsGood y pick e good =
      let more = accept_loop-append s self g y.picks pick (good.leaves ∙ ap is_left e) in
      (
        rw more refl,
        rw more (
            spawned_of-append s self g (accept_loop s self y.picks).0 _
            ∙ ap (λ l. l ++ spawned_of s self g (accept_loop s self (pick ∷ [])).0) good.spawns),
      )

  not_finished : {A : Type 0} (phase : Phase) → phase ≡ accepting → phase ≡ finished → A
  not_finished phase e e' = absurd cc

  -- What detached tasks do is not counted.
  detached-IsGood : (y : System s self g) (n : ℕ) → IsGood y → IsGood (record y { detached = n })
  detached-IsGood y n good = record {
    counted = good.counted;
    spawns = good.spawns;
    leaves = good.leaves;
    cancels = good.cancels;
    ended = good.ended;
  }

  -- A change of the task at a place.
  changed-IsGood :
      (y : System s self g) (x : g.Shutdown) (before after : Tasks s self g)
      (old new : Task s self g)
      → y.tasks ≡ before ++ old ∷ after
      → weight s self g old ≡ 1
      → service_of s self g old ≡ service_of s self g new
      → g.is_cancelled x ≡ g.is_cancelled y.shutdown
      → g.running x + 1 ≡ g.running y.shutdown + weight s self g new
      → IsGood y
      → IsGood (record y { shutdown = x; tasks = before ++ new ∷ after })
  changed-IsGood y x before after old new e runs same same_signal same_count good =
      let old_count : count s self g y.tasks ≡ count s self g before + (1 + count s self g after) =
        rw e (rw (← runs) (count-append s self g before (old ∷ after))) in
      let new_count = count-append s self g before (new ∷ after) in
      record {
        counted = omega (arith, good.counted, old_count, new_count, same_count);
        spawns = rw e at good.spawns ∙ services_of s self g before after old new same;
        leaves = good.leaves;
        cancels = λ left. same_signal ∙ good.cancels left;
        ended = λ is_end. absurd (omega (arith, good.ended is_end, old_count));
      }

  -- A task that runs is counted, so its end counts down.
  one_less :
      (y : System s self g) (before : Tasks s self g) (old : Task s self g) (after : Tasks s self g)
      → y.tasks ≡ before ++ old ∷ after
      → weight s self g old ≡ 1
      → IsGood y
      → g.running (g.end_task y.shutdown) + 1 ≡ g.running y.shutdown + 0
  one_less y before old after e runs good =
      let old_count : count s self g y.tasks ≡ count s self g before + (1 + count s self g after) =
        rw e (rw (← runs) (count-append s self g before (old ∷ after))) in
      omega (arith, good.counted, old_count, g.running-end_task y.shutdown)

  -- The wait is over only when no task runs.
  pub is_over_lem :
      (x : g.Shutdown) → g.is_shut_down x ≡ true → (g.is_cancelled x ≡ true) × (g.running x ≡ 0)
  is_over_lem x e =
      let both : (g.is_cancelled x && nat_eq (g.running x) 0) ≡ true =
        sym (g.is_shut_down_lem x) ∙ e in
      (and-left _ _ both, zero_of (g.running x) (and-right (g.is_cancelled x) _ both))
    where
      zero_of : (n : ℕ) → nat_eq n 0 ≡ true → n ≡ 0
      zero_of n e' = ground arith

  pub Aside-IsGood : {y z : System s self g} → Aside s self g y z → IsGood y → IsGood z
  Aside-IsGood {y} (detaches before c after e) good = detached-IsGood y (suc y.detached) good
  Aside-IsGood {y} (detaches_late before c after e) good = detached-IsGood y (suc y.detached) good
  Aside-IsGood {y} (detaches_more n e) good = detached-IsGood y (suc y.detached) good
  Aside-IsGood {y} (detached_ends n e) good = detached-IsGood y n good

  pub Step-IsGood : {y z : System s self g} → Step s self g y z → IsGood y → IsGood z
  unfolding accept_loop service
  Step-IsGood {y} (signalled not_yet) good = record {
    counted = g.running-signal y.shutdown ∙ good.counted;
    spawns = good.spawns;
    leaves = good.leaves;
    cancels = λ left. g.is_cancelled-signal y.shutdown;
    ended = good.ended;
  }
  Step-IsGood {y} (accepts tcp a e) good =
      let (leaves, spawns) = picks-IsGood y (accepted tcp a) e good in
      record {
        counted = omega (
          arith,
          g.running-spawn_task y.shutdown,
          good.counted,
          count-append s self g y.tasks (serving (service s self a) ∷ []),
        );
        spawns = spawns ∙ sym (map-append (service_of s self g) y.tasks _);
        leaves = leaves ∙ sym (ap is_left e);
        cancels = λ left. g.is_cancelled-spawn_task y.shutdown ∙ good.cancels left;
        ended = λ is_end. not_finished y.phase e is_end;
      }
  Step-IsGood {y} (fails_to_accept x e) good =
      let (leaves, spawns) = picks-IsGood y (accept_error x) e good in
      record {
        counted = good.counted;
        spawns = spawns ∙ append-nil _;
        leaves = leaves ∙ sym (ap is_left e);
        cancels = good.cancels;
        ended = good.ended;
      }
  Step-IsGood {y} (breaks e now) good =
      let (leaves, spawns) = picks-IsGood y cancelled e good in
      record {
        counted = good.counted;
        spawns = spawns ∙ append-nil _;
        leaves = leaves;
        cancels = λ left. now;
        ended = λ is_end. absurd cc;
      }
  Step-IsGood {y} (drains before c after e now) good =
      changed-IsGood y y.shutdown before after (serving c) (draining c) e refl refl refl refl good
  Step-IsGood {y} (ends before c after reqs res e) good =
      changed-IsGood y (g.end_task y.shutdown) before after (serving c) (over c (served reqs res)) e
        refl refl (g.is_cancelled-end_task y.shutdown)
        (one_less y before (serving c) after e refl good) good
  Step-IsGood {y} (ends_late before c after reqs late res e) good =
      changed-IsGood y (g.end_task y.shutdown) before after (draining c)
        (over c (shut_down reqs late res)) e refl refl (g.is_cancelled-end_task y.shutdown)
        (one_less y before (draining c) after e refl good) good
  Step-IsGood {y} (returns e now) good = record {
    counted = good.counted;
    spawns = good.spawns;
    leaves = good.leaves ∙ ap is_left e;
    cancels = λ left. (is_over_lem y.shutdown now).0;
    ended = λ is_end. sym good.counted ∙ (is_over_lem y.shutdown now).1;
  }
