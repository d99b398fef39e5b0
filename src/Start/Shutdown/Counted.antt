-- ===== src/Start/Shutdown/Counted.antt =====
-- The tasks of a run of `Proxy::start` of src/proxy/mod.rs, and the connections that its loop
-- accepted.
use hudsucker.Prelude.{ℕ, ◌+◌, ◌≡◌, refl, ap, Bool, true, false, List, [], ◌∷◌, ◌++◌, map, arith}
use hudsucker.Platform.{Platform}
use hudsucker.Rewind.{Buffers}
use hudsucker.Internal.Runtime.{Runtime}
use hudsucker.Builder.{Parts, Proxy}
use hudsucker.Start.{
  Listening, Pick, accepted, accept_error, cancelled, Service, Action, spawned, accept_failed,
  accept_loop,
}
use hudsucker.Start.Shutdown.{
  Graceful, Phase, accepting, waiting, finished, Task, serving, draining, over,
}

-- Whether the loop was left.
abbrev pub is_left : Phase → Bool
is_left accepting = false
is_left waiting = true
is_left finished = true

module _ {p : Platform} {buf : Buffers} {r : Runtime p buf} {k : Parts r} (s : Listening k)
    (self : Proxy k) (g : Graceful k.Shutdown) where
  abbrev pub Tasks : Type 0
  Tasks = List (Task s self g)

  abbrev pub service_of : Task s self g → Service s self
  service_of (serving c) = c
  service_of (draining c) = c
  service_of (over c conn) = c

  -- What the connections of a list of actions are served with.
  abbrev pub spawned_of : List (Action s self) → List (Service s self)
  spawned_of [] = []
  spawned_of (spawned tcp c ∷ actions) = c ∷ spawned_of actions
  spawned_of (accept_failed e ∷ actions) = spawned_of actions

  abbrev pub weight : Task s self g → ℕ
  weight (serving c) = 1
  weight (draining c) = 1
  weight (over c conn) = 0

  -- How many tasks run.
  abbrev pub count : Tasks → ℕ
  count [] = 0
  count (task ∷ tasks) = weight task + count tasks

  pub count-append : (xs ys : Tasks) → count (xs ++ ys) ≡ count xs + count ys
  count-append [] ys = omega arith
  count-append (x ∷ xs) ys = omega (arith, count-append xs ys)

  pub spawned_of-append :
      (xs ys : List (Action s self)) → spawned_of (xs ++ ys) ≡ spawned_of xs ++ spawned_of ys
  spawned_of-append [] ys = refl
  spawned_of-append (spawned tcp c ∷ xs) ys = ap (λ l. c ∷ l) (spawned_of-append xs ys)
  spawned_of-append (accept_failed e ∷ xs) ys = spawned_of-append xs ys

  -- One more pick of a loop that goes on.
  pub accept_loop-append :
      (picks : List (Pick r)) (pick : Pick r)
      → (accept_loop s self picks).1 ≡ false
      → accept_loop s self (picks ++ (pick ∷ [])) ≡ (
        (accept_loop s self picks).0 ++ (accept_loop s self (pick ∷ [])).0,
        (accept_loop s self (pick ∷ [])).1,
      )
  unfolding accept_loop
  accept_loop-append [] pick e = refl
  accept_loop-append (accepted tcp a ∷ picks) pick e = rw (accept_loop-append picks pick e) refl
  accept_loop-append (accept_error x ∷ picks) pick e = rw (accept_loop-append picks pick e) refl
  accept_loop-append (cancelled ∷ picks) pick e = absurd cc

  -- A task that changes leaves the others, and what they are served with.
  pub services_of :
      (before after : Tasks) (old new : Task s self g)
      → service_of old ≡ service_of new
      → map service_of (before ++ old ∷ after) ≡ map service_of (before ++ new ∷ after)
  services_of [] after old new e = rw e refl
  services_of (x ∷ before) after old new e =
      ap (λ l. service_of x ∷ l) (services_of before after old new e)
