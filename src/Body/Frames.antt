-- ===== src/Body/Frames.antt =====
-- What a body of src/body.rs answers when it is polled again and again.
use hudsucker.Prelude.{◌∙◌, ℕ, zero, suc, ◌≡◌, refl, ap, List, [], ◌∷◌, map, Result, Bytes}
use mathlib.Core.List.{map-id}
use hudsucker.Error.{Error, network}
use hudsucker.Body.{
  Bodies, Next, Internal, box_body, collected, empty, full, incoming, string, map_next, map_err,
  never, frame_of, wrap_stream, poll_frame, from_box_body, from_collected, from_empty, from_full,
  from_incoming, from_string,
}

-- The answers to `n` polls in a row.
unfoldable pub polls : {S A : Type 0} → (S → A × S) → ℕ → S → List A
polls poll zero s = []
polls poll (suc n) s = let (answer, s') = poll s in answer ∷ polls poll n s'

-- Two pollable things that answer alike step by step answer alike, up to a translation.
polls-simulate :
    {S T A B : Type 0} (poll : S → A × S) (poll' : T → B × T) (f : A → B) (wrap : S → T)
    → ((s : S) → poll' (wrap s) ≡ (f (poll s).0, wrap (poll s).1))
    → (n : ℕ) (s : S) → polls poll' n (wrap s) ≡ map f (polls poll n s)
unfolding polls
polls-simulate poll poll' f wrap step zero s = refl
polls-simulate poll poll' f wrap step (suc n) s =
    rw step (ap (λ l. f (poll s).0 ∷ l) (polls-simulate poll poll' f wrap step n (poll s).1))

module _ (k : Bodies) where
  open k use {errors, Frame, SizeHint}

  -- What a body of each kind answers, by the body that it holds.
  abbrev pub inner_polls : ℕ → Internal k → List (Next (Result Frame (Error errors)))
  inner_polls n (box_body b) = polls k.box_body.poll_frame n b
  inner_polls n (collected b) = map (map_err never) (polls k.collected.poll_frame n b)
  inner_polls n (empty b) = map (map_err never) (polls k.empty.poll_frame n b)
  inner_polls n (full b) = map (map_err never) (polls k.full.poll_frame n b)
  inner_polls n (incoming b) = map (map_err network) (polls k.incoming.poll_frame n b)
  inner_polls n (string b) = map (map_err never) (polls k.string.poll_frame n b)

  -- A body answers a series of polls as the body that it holds does; only the type of the error is
  -- changed: an error of an incoming body becomes a network error, and the other kinds but the
  -- boxed one have no errors.
  pub poll_frame-transparent :
      (n : ℕ) (inner : Internal k)
      → polls (poll_frame k) n (record { inner = inner }) ≡ inner_polls n inner
  unfolding poll_frame
  poll_frame-transparent n (box_body b) =
      polls-simulate k.box_body.poll_frame _ (λ a. a) (from_box_body k) (λ s. refl) n b ∙ map-id _
  poll_frame-transparent n (collected b) =
      polls-simulate k.collected.poll_frame _ _ (from_collected k) (λ s. refl) n b
  poll_frame-transparent n (empty b) =
      polls-simulate k.empty.poll_frame _ _ (from_empty k) (λ s. refl) n b
  poll_frame-transparent n (full b) =
      polls-simulate k.full.poll_frame _ _ (from_full k) (λ s. refl) n b
  poll_frame-transparent n (incoming b) =
      polls-simulate k.incoming.poll_frame _ _ (from_incoming k) (λ s. refl) n b
  poll_frame-transparent n (string b) =
      polls-simulate k.string.poll_frame _ _ (from_string k) (λ s. refl) n b

  module _ {S O E : Type 0} (into_bytes : O → Bytes) (into_error : E → Error errors)
      (poll_next : S → Next (Result O E) × S) where
    -- One poll of a body made of a stream.
    pub poll_frame-wrap_step :
        (s : S)
        → poll_frame k (wrap_stream k into_bytes into_error poll_next s) ≡ (
          map_next (frame_of k into_bytes into_error poll_next) (poll_next s).0,
          wrap_stream k into_bytes into_error poll_next (poll_next s).1,
        )
    unfolding poll_frame wrap_stream
    poll_frame-wrap_step s = rw k.poll_frame-box_stream

    -- A body made of a stream answers a series of polls as the stream does: each chunk becomes a
    -- data frame with the chunk's bytes, each error is converted, and it ends where the stream
    -- ends.
    pub poll_frame-wrap_stream :
        (n : ℕ) (s : S)
        → polls (poll_frame k) n (wrap_stream k into_bytes into_error poll_next s)
          ≡ map (map_next (frame_of k into_bytes into_error poll_next)) (polls poll_next n s)
    poll_frame-wrap_stream n s =
        polls-simulate poll_next (poll_frame k) _ (wrap_stream k into_bytes into_error poll_next)
          poll_frame-wrap_step n s
