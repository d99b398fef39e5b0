-- ===== src/Body.antt =====
-- src/body.rs: the bodies of requests and responses, a sum of the kinds of body that the proxy
-- meets, each of which is a body itself.
pub mod Frames
pub mod Sizes
use hudsucker.Prelude.{
  ℕ, Bool, Option, none, some, Bytes, Poll, ready, pending, Result, ok, err, ◌≡◌,
}
use hudsucker.Error.{Errors, Error, network}

-- What `poll_frame` and `poll_next` answer: an item, the end, or neither yet.
abbrev pub Next : Type 0 → Type 0
Next A = Poll (Option A)

-- An implementation of `http_body::Body` whose error is `E`.
pub record HttpBody (Frame SizeHint E : Type 0) : Type 1 where
  pub Carrier : Type 0
  pub poll_frame : Carrier → Next (Result Frame E) × Carrier
  pub is_end_stream : Carrier → Bool
  pub size_hint : Carrier → SizeHint

-- What the module takes from `http-body-util` and `hyper`.
pub record Bodies : Type 1 where
  pub errors : Errors
  pub Frame : Type 0
  -- `Frame::data` and `Frame::into_data`; `none` is a frame of trailers
  pub data_frame : Bytes → Frame
  pub into_data : Frame → Option Bytes
  pub SizeHint : Type 0
  pub box_body : HttpBody Frame SizeHint (Error errors)
  pub collected : HttpBody Frame SizeHint ⊥
  pub empty : HttpBody Frame SizeHint ⊥
  pub full : HttpBody Frame SizeHint ⊥
  pub incoming : HttpBody Frame SizeHint (errors.HyperError)
  pub string : HttpBody Frame SizeHint ⊥
  pub empty_new : empty.Carrier
  pub full_new : Bytes → full.Carrier
  -- `BoxBody::new(StreamBody::new(stream))`, for a stream by its `poll_next`
  pub box_stream :
      {S : Type 0} → (S → Next (Result Frame (Error errors)) × S) → S → box_body.Carrier
  pub into_data-data_frame : (b : Bytes) → into_data (data_frame b) ≡ some b
  -- A stream that is boxed as a body answers as the stream does.
  pub poll_frame-box_stream :
      {S : Type 0} (poll : S → Next (Result Frame (Error errors)) × S) (s : S)
      → box_body.poll_frame (box_stream poll s) ≡ ((poll s).0, box_stream poll (poll s).1)

-- `Poll::map` on what a poll answers: the items, or the errors among them.
abbrev pub map_next : {A B : Type 0} → (A → B) → Next A → Next B
map_next f pending = pending
map_next f (ready none) = ready none
map_next f (ready (some a)) = ready (some (f a))

abbrev pub map_result : {A B E F : Type 0} → (A → B) → (E → F) → Result A E → Result B F
map_result f g (ok a) = ok (f a)
map_result f g (err e) = err (g e)

abbrev pub map_err : {A E F : Type 0} → (E → F) → Next (Result A E) → Next (Result A F)
map_err g = map_next (map_result (λ a. a) g)

-- A match on the empty error of a body that cannot fail.
abbrev pub never : {A : Type 0} → ⊥ → A
never e = absurd e

-- `enum Internal`.
pub data Internal (k : Bodies) : Type 0 where
  box_body : k.box_body.Carrier → Internal k
  collected : k.collected.Carrier → Internal k
  empty : k.empty.Carrier → Internal k
  full : k.full.Carrier → Internal k
  incoming : k.incoming.Carrier → Internal k
  string : k.string.Carrier → Internal k

pub record Body (k : Bodies) : Type 0 where
  pub inner : Internal k

module _ (k : Bodies) where
  open k use {errors, Frame, SizeHint}

  -- The `From` conversions.
  abbrev pub from_box_body : k.box_body.Carrier → Body k
  from_box_body value = record { inner = box_body value }

  abbrev pub from_collected : k.collected.Carrier → Body k
  from_collected value = record { inner = collected value }

  abbrev pub from_empty : k.empty.Carrier → Body k
  from_empty value = record { inner = empty value }

  abbrev pub from_full : k.full.Carrier → Body k
  from_full value = record { inner = full value }

  abbrev pub from_incoming : k.incoming.Carrier → Body k
  from_incoming value = record { inner = incoming value }

  abbrev pub from_string : k.string.Carrier → Body k
  from_string value = record { inner = string value }

  -- From a `StreamBody`, given by its stream.
  abbrev pub from_stream_body :
      {S : Type 0} → (S → Next (Result Frame (Error errors)) × S) → S → Body k
  from_stream_body poll s = record { inner = box_body (k.box_stream poll s) }

  -- From `&'static str` and `&'static [u8]`, by their bytes.
  abbrev pub from_static : Bytes → Body k
  from_static value = record { inner = full (k.full_new value) }

  module _ {S O E : Type 0} (into_bytes : O → Bytes) (into_error : E → Error errors)
      (poll_next : S → Next (Result O E) × S) where
    -- `stream.map(|res| res.map(Into::into).map(Frame::data).map_err(Into::into))`
    abbrev pub frame_of : Result O E → Result Frame (Error errors)
    frame_of = map_result (λ o. k.data_frame (into_bytes o)) into_error

    abbrev pub poll_mapped : S → Next (Result Frame (Error errors)) × S
    poll_mapped s = let (next, s') = poll_next s in (map_next frame_of next, s')

    pub wrap_stream : S → Body k
    wrap_stream s = record { inner = box_body (k.box_stream poll_mapped s) }

  abbrev Polled : Type 0
  Polled = Next (Result Frame (Error errors)) × Body k

  poll_internal : Internal k → Polled
  poll_internal (box_body body) =
      let (next, body') = k.box_body.poll_frame body in (next, from_box_body body')
  poll_internal (collected body) =
      let (next, body') = k.collected.poll_frame body in (map_err never next, from_collected body')
  poll_internal (empty body) =
      let (next, body') = k.empty.poll_frame body in (map_err never next, from_empty body')
  poll_internal (full body) =
      let (next, body') = k.full.poll_frame body in (map_err never next, from_full body')
  poll_internal (incoming body) =
      let (next, body') = k.incoming.poll_frame body in (map_err network next, from_incoming body')
  poll_internal (string body) =
      let (next, body') = k.string.poll_frame body in (map_err never next, from_string body')

  unfoldable pub poll_frame : Body k → Polled
  unfolding poll_internal
  poll_frame b = poll_internal b.inner

  is_end : Internal k → Bool
  is_end (box_body body) = k.box_body.is_end_stream body
  is_end (collected body) = k.collected.is_end_stream body
  is_end (empty body) = k.empty.is_end_stream body
  is_end (full body) = k.full.is_end_stream body
  is_end (incoming body) = k.incoming.is_end_stream body
  is_end (string body) = k.string.is_end_stream body

  pub is_end_stream : Body k → Bool
  unfolding is_end
  is_end_stream b = is_end b.inner

  size_of : Internal k → SizeHint
  size_of (box_body body) = k.box_body.size_hint body
  size_of (collected body) = k.collected.size_hint body
  size_of (empty body) = k.empty.size_hint body
  size_of (full body) = k.full.size_hint body
  size_of (incoming body) = k.incoming.size_hint body
  size_of (string body) = k.string.size_hint body

  pub size_hint : Body k → SizeHint
  unfolding size_of
  size_hint b = size_of b.inner

-- A body is an `http_body::Body`.
abbrev pub http_body : (k : Bodies) → HttpBody k.Frame k.SizeHint (Error k.errors)
http_body k = record {
  Carrier = Body k;
  poll_frame = poll_frame k;
  is_end_stream = is_end_stream k;
  size_hint = size_hint k;
}
