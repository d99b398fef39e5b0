-- ===== src/Decoder/Stream/Returning.antt =====
-- The loop of `IoStream::poll_next`, in src/decoder.rs, ends, and the fuel of its model is enough.
use hudsucker.Prelude.{
  ℕ, zero, suc, ◌≤◌, ◌<◌, ◌≡◌, refl, ◌∙◌, inl, inr, none, some, Option-cases, List, length, ready,
  pending, Result, Bytes, arith,
}
use hudsucker.Error.{Error}
use hudsucker.Body.{Bodies, Body, poll_frame}
use hudsucker.Decoder.Stream.{Chunk, chunk_of, pass_over, poll_next}
use hudsucker.Decoder.Readers.{Yields, ended, item, waits}

module _ (k : Bodies) (other : Error k.errors → k.errors.IoError) where
  -- The loop returns, by one line for each way round it: what it returns and how often it goes on.
  pub data Returns : Body k → Chunk k other → ℕ → Type 0 where
    not_ready : {b b' : Body k} → poll_frame k b ≡ (pending, b') → Returns b (pending, b') 0
    at_end : {b b' : Body k} → poll_frame k b ≡ (ready none, b') → Returns b (ready none, b') 0
    with_chunk :
        {b b' : Body k} {a : Result k.Frame (Error k.errors)} {c : Result Bytes k.errors.IoError}
        → poll_frame k b ≡ (ready (some a), b')
        → chunk_of k other a ≡ some c
        → Returns b (ready (some c), b') 0
    goes_on :
        {b b' : Body k} {a : Result k.Frame (Error k.errors)} {out : Chunk k other} {n : ℕ}
        → poll_frame k b ≡ (ready (some a), b')
        → chunk_of k other a ≡ none
        → Returns b' out n
        → Returns b out (suc n)

  round :
      (b b' : Body k) (a : Result k.Frame (Error k.errors)) (fuel : ℕ)
      → poll_frame k b ≡ (ready (some a), b')
      → chunk_of k other a ≡ none
      → poll_next k other (suc fuel) b ≡ poll_next k other fuel b'
  unfolding poll_next
  round b b' a fuel e c = rw (e, poll_next) (rw (c, pass_over) refl)

  -- Fuel for one time round more than the loop goes on is enough.
  enough :
      (fuel : ℕ) {b : Body k} {out : Chunk k other} {n : ℕ}
      → Returns b out n
      → n < fuel
      → poll_next k other fuel b ≡ out
  unfolding poll_next
  enough zero ret h = absurd (omega (arith, h))
  enough (suc fuel) (not_ready e) h = rw (e, poll_next) refl
  enough (suc fuel) (at_end e) h = rw (e, poll_next) refl
  enough (suc fuel) (with_chunk e c) h = rw (e, poll_next) (rw (c, pass_over) refl)
  enough (suc fuel) (goes_on {b = b} {b' = b'} {a = a} e c ret) h =
      round b b' a fuel e c ∙ enough fuel {b = b'} ret (omega (arith, h))

  returns :
      {b : Body k} {items : List (Result k.Frame (Error k.errors))}
      → Yields (poll_frame k) b items
      → (out : Chunk k other) × (n : ℕ) × Returns b out n × (n ≤ length items)
  returns (ended e) = (_, 0, at_end e, omega arith)
  returns (waits e y) = (_, 0, not_ready e, omega arith)
  returns (item {a = a} e y) = elim (Option-cases (chunk_of k other a)) [
    | inl no_data ↦
        (let (out, n, later, bound) = returns y in
          (out, suc n, goes_on e no_data later, omega (arith, bound)))
    | inr (c, data_in) ↦ (_, 0, with_chunk e data_in, omega arith)
  ]

  -- If a body ends, the loop returns, whether a frame was ready or not, and it goes on at most as
  -- often as the body yields frames or errors; with more fuel than that, the model answers what the
  -- loop returns.
  pub poll_next-Returns :
      (b : Body k) (items : List (Result k.Frame (Error k.errors))) (fuel : ℕ)
      → Yields (poll_frame k) b items
      → length items < fuel
      → (out : Chunk k other) × (n : ℕ) × Returns b out n
        × (n ≤ length items)
        × (poll_next k other fuel b ≡ out)
  poll_next-Returns b items fuel y more =
      let (out, n, ret, bound) = returns y in
      (out, n, ret, bound, enough fuel ret (omega (arith, bound, more)))
