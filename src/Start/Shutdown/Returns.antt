-- ===== src/Start/Shutdown/Returns.antt =====
-- The shutdown of `Proxy::start` of src/proxy/mod.rs: that it returns.
use hudsucker.Prelude.{
  ℕ, suc, ◌+◌, ◌*◌, ◌≤◌, ◌≡◌, ◌⊎◌, inl, inr, refl, sym, ap, ◌∙◌, true, false≢true, [], ◌∷◌, ◌++◌,
  ok, arith,
}
use hudsucker.Platform.{Platform}
use hudsucker.Rewind.{Buffers}
use hudsucker.Internal.Runtime.{Runtime}
use hudsucker.Builder.{Parts, Proxy}
use hudsucker.Start.{Listening, Service, served, shut_down}
use hudsucker.Start.Shutdown.{
  Graceful, Phase, accepting, waiting, finished, Task, serving, draining, over, System, begin, Step,
  signalled, accepts, fails_to_accept, breaks, drains, ends, ends_late, returns, Steps, stay, step,
  aside, Aside, detaches, detaches_late, detaches_more, detached_ends,
}
use hudsucker.Start.Shutdown.Counted.{is_left, Tasks, count}
use hudsucker.Start.Shutdown.Invariant.{IsGood, is_over_lem, begin-IsGood}
use hudsucker.Start.Shutdown.Waits.{Steps-IsGood}

module _ {p : Platform} {buf : Buffers} {r : Runtime p buf} {k : Parts r} (s : Listening k)
    (self : Proxy k) (g : Graceful k.Shutdown) where
  -- What a task may still do: be told to shut down, and end.
  abbrev pub to_do : Tasks s self g → ℕ
  to_do [] = 0
  to_do (serving c ∷ tasks) = 2 + to_do tasks
  to_do (draining c ∷ tasks) = 1 + to_do tasks
  to_do (over c conn ∷ tasks) = to_do tasks

  to_do-append : (xs ys : Tasks s self g) → to_do (xs ++ ys) ≡ to_do xs + to_do ys
  to_do-append [] ys = omega arith
  to_do-append (serving c ∷ xs) ys = omega (arith, to_do-append xs ys)
  to_do-append (draining c ∷ xs) ys = omega (arith, to_do-append xs ys)
  to_do-append (over c conn ∷ xs) ys = to_do-append xs ys

  to_do-count : (tasks : Tasks s self g) → to_do tasks ≤ 2 * count s self g tasks
  to_do-count [] = omega arith
  to_do-count (serving c ∷ tasks) = omega (arith, to_do-count tasks)
  to_do-count (draining c ∷ tasks) = omega (arith, to_do-count tasks)
  to_do-count (over c conn ∷ tasks) = omega (arith, to_do-count tasks)

  abbrev pub to_return : Phase → ℕ
  to_return accepting = 2
  to_return waiting = 1
  to_return finished = 0

  to_return-left : (phase : Phase) → is_left phase ≡ true → to_return phase ≤ 1
  to_return-left accepting e = absurd cc
  to_return-left waiting e = omega arith
  to_return-left finished e = omega arith

  -- How many steps there can be before the return.
  abbrev to_come : System s self g → ℕ
  to_come y = to_return y.phase + to_do y.tasks

  changed-to_do :
      (y : System s self g) (before after : Tasks s self g) (old new : Task s self g)
      → y.tasks ≡ before ++ old ∷ after
      → suc (to_do (new ∷ after)) ≤ to_do (old ∷ after)
      → suc (to_return y.phase + to_do (before ++ new ∷ after)) ≤ to_come y
  changed-to_do y before after old new e less =
      let old_sum : to_do y.tasks ≡ to_do before + to_do (old ∷ after) =
        rw e (to_do-append before (old ∷ after)) in
      let new_sum = to_do-append before (new ∷ after) in omega (arith, old_sum, new_sum, less)

  Step-to_come :
      {y z : System s self g}
      → IsGood s self g y
      → is_left y.phase ≡ true
      → Step s self g y z
      → (is_left z.phase ≡ true) × (suc (to_come z) ≤ to_come y)
  Step-to_come {y} good left (signalled not_yet) =
      absurd (false≢true (sym not_yet ∙ good.cancels left))
  Step-to_come good left (accepts tcp a e) = absurd (false≢true (sym (ap is_left e) ∙ left))
  Step-to_come good left (fails_to_accept x e) = absurd (false≢true (sym (ap is_left e) ∙ left))
  Step-to_come good left (breaks e now) = absurd (false≢true (sym (ap is_left e) ∙ left))
  Step-to_come {y} good left (drains before c after e now) =
      (left, changed-to_do y before after (serving c) (draining c) e (omega arith))
  Step-to_come {y} good left (ends before c after reqs res e) =
      (left, changed-to_do y before after (serving c) (over c (served reqs res)) e (omega arith))
  Step-to_come {y} good left (ends_late before c after reqs late res e) = (
    left,
    changed-to_do y before after (draining c) (over c (shut_down reqs late res)) e (omega arith),
  )
  Step-to_come good left (returns e now) = (refl, omega (arith, ap to_return e))

  Aside-to_come :
      (m n : ℕ) {z w : System s self g}
      → Aside s self g z w
      → is_left z.phase ≡ true
      → n + to_come z ≤ m
      → (is_left w.phase ≡ true) × (n + to_come w ≤ m)
  Aside-to_come m n (detaches before c after e) left less = (left, less)
  Aside-to_come m n (detaches_late before c after e) left less = (left, less)
  Aside-to_come m n (detaches_more l e) left less = (left, less)
  Aside-to_come m n (detached_ends l e) left less = (left, less)

  Steps-to_come :
      {y : System s self g} {n : ℕ} {z : System s self g}
      → Steps s self g y n z
      → IsGood s self g y
      → is_left y.phase ≡ true
      → (is_left z.phase ≡ true) × (n + to_come z ≤ to_come y)
  Steps-to_come stay good left = (left, omega arith)
  Steps-to_come (aside before last) good left =
      let (still, less) = Steps-to_come before good left in Aside-to_come _ _ last still less
  Steps-to_come (step before last) good left =
      let (still, less) = Steps-to_come before good left in
      let (left', less') = Step-to_come (Steps-IsGood s self g before good) still last in
      (left', omega (arith, less, less'))

  -- Where a task runs.
  data Running (tasks : Tasks s self g) : Type 0 where
    none_runs : count s self g tasks ≡ 0 → Running tasks
    serves :
        (before : Tasks s self g) (c : Service s self) (after : Tasks s self g)
        → tasks ≡ before ++ serving c ∷ after
        → Running tasks
    drains_still :
        (before : Tasks s self g) (c : Service s self) (after : Tasks s self g)
        → tasks ≡ before ++ draining c ∷ after
        → Running tasks

  find_running : (tasks : Tasks s self g) → Running tasks
  find_running [] = none_runs refl
  find_running (serving c ∷ tasks) = serves [] c tasks refl
  find_running (draining c ∷ tasks) = drains_still [] c tasks refl
  find_running (over c conn ∷ tasks) = elim (find_running tasks) [
    | none_runs e ↦ none_runs (omega (arith, e))
    | serves before c' after e ↦
        serves (over c conn ∷ before) c' after (ap (λ l. over c conn ∷ l) e)
    | drains_still before c' after e ↦
        drains_still (over c conn ∷ before) c' after (ap (λ l. over c conn ∷ l) e)
  ]

  -- The steps that come by themselves: a task that is served is told to shut down, a task that was
  -- told ends, and the return. That a task ends which was not told is left to its client.
  abbrev pub ComesByItself : {y z : System s self g} → Step s self g y z → Type 0
  ComesByItself (drains before c after e now) = Unit
  ComesByItself (ends_late before c after reqs late res e) = Unit
  ComesByItself (returns e now) = Unit
  ComesByItself (signalled not_yet) = ⊥
  ComesByItself (accepts tcp a e) = ⊥
  ComesByItself (fails_to_accept x e) = ⊥
  ComesByItself (breaks e now) = ⊥
  ComesByItself (ends before c after reqs res e) = ⊥

  -- A system in which `start` waits for the tasks.
  pub record GoesOn (z : System s self g) : Type 0 where
    -- each task that is served can be told to shut down now
    pub told :
        (before : Tasks s self g) (c : Service s self) (after : Tasks s self g)
        → z.tasks ≡ before ++ serving c ∷ after
        → Step s self g z (record z { tasks = before ++ draining c ∷ after })
    -- `start` can return if no task runs, and not before
    pub returns_then : count s self g z.tasks ≡ 0 → Step s self g z (record z { phase = finished })
    pub waits : g.is_shut_down z.shutdown ≡ true → count s self g z.tasks ≡ 0
    pub next : (w : System s self g) × (next : Step s self g z w) × ComesByItself next

  shut_down_now :
      (x : g.Shutdown) → g.is_cancelled x ≡ true → g.running x ≡ 0 → g.is_shut_down x ≡ true
  shut_down_now x now none_left = g.is_shut_down_lem x ∙ rw (now, none_left) refl

  waiting-GoesOn : (z : System s self g) → IsGood s self g z → z.phase ≡ waiting → GoesOn z
  waiting-GoesOn z good e = record {
    told = λ before c after runs. drains before c after runs now;
    returns_then = λ none_left. returns e (over_now none_left);
    waits = λ is_over. sym good.counted ∙ (is_over_lem s self g z.shutdown is_over).1;
    next = elim (find_running z.tasks) [
      | none_runs none_left ↦ (_, returns e (over_now none_left), tt)
      | serves before c after runs ↦ (_, drains before c after runs now, tt)
      | drains_still before c after runs ↦ (_, ends_late before c after [] [] (ok tt) runs, tt)
    ];
  }
    where
      now : g.is_cancelled z.shutdown ≡ true
      now = good.cancels (ap is_left e)

      over_now : count s self g z.tasks ≡ 0 → g.is_shut_down z.shutdown ≡ true
      over_now none_left = shut_down_now z.shutdown now (good.counted ∙ none_left)

  left_phase : (phase : Phase) → is_left phase ≡ true → (phase ≡ waiting) ⊎ (phase ≡ finished)
  left_phase accepting e = absurd (false≢true e)
  left_phase waiting e = inl refl
  left_phase finished e = inr refl

  -- Once the loop is left, however the tasks of the connections interleave, at most two of their
  -- steps for each that still runs and one for the return can follow, whatever the tasks of tunnels
  -- and WebSockets do beside them. As long as `start` has not returned, each task that is served
  -- can be told to shut down, the return is possible if no task runs, the wait for the tasks is not
  -- over while one runs, and there is a next step other than the end of a task that was not told: a
  -- task is told, or one that was told ends, as `hyper` lets it, or the return.
  pub Steps-returns :
      {m n : ℕ} {y z : System s self g}
      → Steps s self g (begin s self g) m y
      → is_left y.phase ≡ true
      → Steps s self g y n z
      → (n ≤ 2 * count s self g y.tasks + 1) × ((z.phase ≡ finished) ⊎ GoesOn z)
  Steps-returns {y = y} {z = z} before left steps =
      let good = Steps-IsGood s self g before (begin-IsGood s self g) in
      let (still, less) = Steps-to_come steps good left in
      (
        omega (arith, less, to_do-count y.tasks, to_return-left y.phase left),
        elim (left_phase z.phase still) [
          | inl e ↦ inr (waiting-GoesOn z (Steps-IsGood s self g steps good) e)
          | inr e ↦ inl e
        ],
      )
