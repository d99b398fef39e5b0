-- ===== src/Decoder/Stream/Reading.antt =====
-- `IoStream` of src/decoder.rs yields the data of a body, in order, and its errors.
use hudsucker.Prelude.{
  ℕ, zero, suc, ◌≡◌, refl, Option, none, some, List, [], ◌∷◌, filter_map, ready, pending, Result,
  Bytes,
}
use hudsucker.Error.{Error}
use hudsucker.Body.{Bodies, Body, Next, poll_frame}
use hudsucker.Decoder.Stream.{Chunk, chunk_of, pass_over, poll_next}
use hudsucker.Decoder.Readers.{Yields, ended, item, waits}

-- What is still to be yielded after a poll answered.
abbrev pub After : {S A : Type 0} (poll : S → Next A × S) → Next A × S → List A → Type 0
After poll (pending, s) items = Yields poll s items
After poll (ready none, s) items = items ≡ []
After poll (ready (some a), s) items = (rest : _) × (items ≡ a ∷ rest) × Yields poll s rest

Yields-of-After :
    {S A : Type 0} (poll : S → Next A × S) (s : S) (items : List A) (answer : Next A × S)
    → poll s ≡ answer
    → After poll answer items
    → Yields poll s items
Yields-of-After poll s items (pending, s') e y = waits e y
Yields-of-After poll s items (ready none, s') e y = rw y (ended e)
Yields-of-After poll s items (ready (some a), s') e (rest, same, y) = rw same (item e y)

filter_map-some :
    {A B : Type 0} (f : A → Option B) (a : A) (items : List A) {b : B}
    → f a ≡ some b
    → filter_map f (a ∷ items) ≡ b ∷ filter_map f items
unfolding filter_map
filter_map-some f a items e = rw e

filter_map-none :
    {A B : Type 0} (f : A → Option B) (a : A) (items : List A)
    → f a ≡ none
    → filter_map f (a ∷ items) ≡ filter_map f items
unfolding filter_map
filter_map-none f a items e = rw e

filter_map-nil : {A B : Type 0} (f : A → Option B) → filter_map f [] ≡ []
unfolding filter_map
filter_map-nil f = refl

module _ (k : Bodies) (other : Error k.errors → k.errors.IoError) (fuel : ℕ) where
  abbrev poll_chunk : Body k → Chunk k other
  poll_chunk b = poll_next k other (suc fuel) b

  abbrev chunks : List (Result k.Frame (Error k.errors)) → List (Result Bytes k.errors.IoError)
  chunks items = filter_map (chunk_of k other) items

  After-pass_over :
      (a : Result k.Frame (Error k.errors)) (items : List (Result k.Frame (Error k.errors)))
      (b : Body k) (again : Body k → Chunk k other) (o : Option (Result Bytes k.errors.IoError))
      → chunk_of k other a ≡ o
      → Yields poll_chunk b (chunks items)
      → After poll_chunk (again b) (chunks items)
      → After poll_chunk (pass_over k other again o b) (chunks (a ∷ items))
  unfolding pass_over
  After-pass_over a items b again (some chunk) e later passed =
      (chunks items, filter_map-some (chunk_of k other) a items e, later)
  After-pass_over a items b again none e later passed =
      rw (filter_map-none (chunk_of k other) a items e) passed

  After-poll_next :
      {b : Body k} {items : List (Result k.Frame (Error k.errors))} (m : ℕ)
      → Yields (poll_frame k) b items
      → After poll_chunk (poll_next k other (suc m) b) (chunks items)
  unfolding poll_next
  After-poll_next m (ended e) = rw (e, poll_next) (filter_map-nil (chunk_of k other))
  After-poll_next m (waits {s' = b'} {items = items} e y) =
      rw (e, poll_next)
        (Yields-of-After poll_chunk b' (chunks items) (poll_chunk b') refl (After-poll_next fuel y))
  After-poll_next zero (item {s' = b'} {a = a} {items = items} e y) =
      let later : Yields poll_chunk b' (chunks items) =
        Yields-of-After poll_chunk b' (chunks items) (poll_chunk b') refl
          (After-poll_next fuel y) in
      rw (e, poll_next) (After-pass_over a items b' _ _ refl later later)
  After-poll_next (suc m) (item {s' = b'} {a = a} {items = items} e y) =
      let later : Yields poll_chunk b' (chunks items) =
        Yields-of-After poll_chunk b' (chunks items) (poll_chunk b') refl
          (After-poll_next fuel y) in
      rw (e, poll_next) (After-pass_over a items b' _ _ refl later (After-poll_next m y))

  -- Polled until it ends, the stream yields, of the frames and errors that the body yields, the data
  -- of each frame that holds data and each error, as an input/output error, in order. So it does for
  -- every number of frames that one poll may pass over, if that is not zero.
  pub poll_next-Yields :
      (b : Body k) (items : List (Result k.Frame (Error k.errors)))
      → Yields (poll_frame k) b items
      → Yields poll_chunk b (filter_map (chunk_of k other) items)
  poll_next-Yields b items y =
      Yields-of-After poll_chunk b (chunks items) (poll_chunk b) refl (After-poll_next fuel y)
