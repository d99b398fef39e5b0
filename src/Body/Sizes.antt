-- ===== src/Body/Sizes.antt =====
-- The promises of a body that src/body.rs passes on: how much data it says that it holds, and that
-- it is at its end.
use hudsucker.Prelude.{
  ℕ, ◌+◌, ◌≤◌, ◌≡◌, ap, refl, sym, ◌∙◌, Bool, true, false, Option, none, some, List, [], ◌∷◌, map,
  length, ready, pending, Result, ok, err,
}
use hudsucker.Error.{network}
use hudsucker.Body.{
  Bodies, HttpBody, Next, Internal, box_body, collected, empty, full, incoming, string, map_err,
  never, poll_frame, is_end_stream, size_hint, http_body,
}
use hudsucker.Body.Frames.{polls, inner_polls, poll_frame-transparent}

-- What is counted of an answer to a poll.
module _ (k : Bodies) {E : Type 0} where
  open k use {Frame}

  -- The bytes of data in it.
  abbrev pub data_length : Next (Result Frame E) → ℕ
  data_length (ready (some (ok frame))) = elim (k.into_data frame) [
    | some bytes ↦ length bytes
    | none ↦ 0
  ]
  data_length (ready (some (err e))) = 0
  data_length (ready none) = 0
  data_length pending = 0

  abbrev pub total : List (Next (Result Frame E)) → ℕ
  total [] = 0
  total (answer ∷ answers) = data_length answer + total answers

  -- The body has ended.
  abbrev pub ended : List (Next (Result Frame E)) → Bool
  ended [] = false
  ended (ready none ∷ answers) = true
  ended (ready (some item) ∷ answers) = ended answers
  ended (pending ∷ answers) = ended answers

  abbrev pub failed : List (Next (Result Frame E)) → Bool
  failed [] = false
  failed (ready (some (err e)) ∷ answers) = true
  failed (ready (some (ok frame)) ∷ answers) = failed answers
  failed (ready none ∷ answers) = failed answers
  failed (pending ∷ answers) = failed answers

  -- A frame or an error is among them.
  abbrev pub yields : List (Next (Result Frame E)) → Bool
  yields [] = false
  yields (ready (some item) ∷ answers) = true
  yields (ready none ∷ answers) = yields answers
  yields (pending ∷ answers) = yields answers

-- The bounds of a `SizeHint`.
module _ (k : Bodies) (lower : k.SizeHint → ℕ) (upper : k.SizeHint → Option ℕ) where
  open k use {Frame, SizeHint}

  -- What is promised of the answers to any number of polls, by what the body says beforehand.
  pub record Keeps {E : Type 0} (hint : SizeHint) (at_end : Bool)
      (answers : ℕ → List (Next (Result Frame E))) : Type 0 where
    -- never more data than the upper bound
    pub at_most : (n m : ℕ) → upper hint ≡ some m → total k (answers n) ≤ m
    -- no less data than the lower bound when it ends without an error
    pub at_least :
        (n : ℕ)
        → ended k (answers n) ≡ true
        → failed k (answers n) ≡ false
        → lower hint ≤ total k (answers n)
    -- nothing after its end
    pub no_more : (n : ℕ) → at_end ≡ true → yields k (answers n) ≡ false

  -- An implementation of `http_body::Body` that keeps its promises.
  abbrev pub IsHonest : {E : Type 0} → HttpBody Frame SizeHint E → Type 0
  IsHonest b =
      (body : b.Carrier)
      → Keeps (b.size_hint body) (b.is_end_stream body) (λ n. polls b.poll_frame n body)

  -- Converting the errors changes none of what is counted.
  module _ {E F : Type 0} (g : E → F) where
    total-map_err :
        (answers : List (Next (Result Frame E)))
        → total k (map (map_err g) answers) ≡ total k answers
    total-map_err [] = refl
    total-map_err (ready (some (ok frame)) ∷ answers) =
        ap (data_length k {E = E} (ready (some (ok frame))) +◌) (total-map_err answers)
    total-map_err (ready (some (err e)) ∷ answers) = ap (0 +◌) (total-map_err answers)
    total-map_err (ready none ∷ answers) = ap (0 +◌) (total-map_err answers)
    total-map_err (pending ∷ answers) = ap (0 +◌) (total-map_err answers)

    ended-map_err :
        (answers : List (Next (Result Frame E)))
        → ended k (map (map_err g) answers) ≡ ended k answers
    ended-map_err [] = refl
    ended-map_err (ready none ∷ answers) = refl
    ended-map_err (ready (some (ok frame)) ∷ answers) = ended-map_err answers
    ended-map_err (ready (some (err e)) ∷ answers) = ended-map_err answers
    ended-map_err (pending ∷ answers) = ended-map_err answers

    failed-map_err :
        (answers : List (Next (Result Frame E)))
        → failed k (map (map_err g) answers) ≡ failed k answers
    failed-map_err [] = refl
    failed-map_err (ready (some (err e)) ∷ answers) = refl
    failed-map_err (ready (some (ok frame)) ∷ answers) = failed-map_err answers
    failed-map_err (ready none ∷ answers) = failed-map_err answers
    failed-map_err (pending ∷ answers) = failed-map_err answers

    yields-map_err :
        (answers : List (Next (Result Frame E)))
        → yields k (map (map_err g) answers) ≡ yields k answers
    yields-map_err [] = refl
    yields-map_err (ready (some (ok frame)) ∷ answers) = refl
    yields-map_err (ready (some (err e)) ∷ answers) = refl
    yields-map_err (ready none ∷ answers) = yields-map_err answers
    yields-map_err (pending ∷ answers) = yields-map_err answers

    Keeps-map_err :
        (hint : SizeHint) (at_end : Bool) (answers : ℕ → List (Next (Result Frame E)))
        → Keeps hint at_end answers
        → Keeps hint at_end (λ n. map (map_err g) (answers n))
    Keeps-map_err hint at_end answers keeps = record {
      at_most = λ n m e. rw (total-map_err (answers n)) (keeps.at_most n m e);
      at_least = λ n has_ended unfailed. rw (total-map_err (answers n)) (
          keeps.at_least n (sym (ended-map_err (answers n)) ∙ has_ended)
            (sym (failed-map_err (answers n)) ∙ unfailed));
      no_more = λ n e. yields-map_err (answers n) ∙ keeps.no_more n e;
    }

  -- Answers that are equal keep the same promises.
  Keeps-equal :
      {E : Type 0} (hint : SizeHint) (at_end : Bool)
      (answers answers' : ℕ → List (Next (Result Frame E)))
      → ((n : ℕ) → answers' n ≡ answers n)
      → Keeps hint at_end answers
      → Keeps hint at_end answers'
  Keeps-equal hint at_end answers answers' equal keeps = record {
    at_most = λ n m e. rw (equal n) (keeps.at_most n m e);
    at_least = λ n has_ended unfailed. rw (equal n) (
        keeps.at_least n (sym (ap (ended k) (equal n)) ∙ has_ended)
          (sym (ap (failed k) (equal n)) ∙ unfailed));
    no_more = λ n e. ap (yields k) (equal n) ∙ keeps.no_more n e;
  }

  -- If each of the six kinds of body keeps its promises, so does a body of any kind, however it is
  -- polled: of data it never yields more than the upper bound of its size hint, and no less than the
  -- lower bound once it has ended without an error; and when it says that it is at its end, it
  -- yields nothing more.
  pub http_body-IsHonest :
      IsHonest k.box_body
      → IsHonest k.collected
      → IsHonest k.empty
      → IsHonest k.full
      → IsHonest k.incoming
      → IsHonest k.string
      → IsHonest (http_body k)
  unfolding size_hint is_end_stream
  http_body-IsHonest of_box of_collected of_empty of_full of_incoming of_string b = keeps b.inner
    where
      held :
          (inner : Internal k)
          → Keeps
              (size_hint k (record { inner = inner }))
              (is_end_stream k (record { inner = inner }))
              (λ n. inner_polls k n inner)
      held (box_body body) = of_box body
      held (collected body) = Keeps-map_err never _ _ _ (of_collected body)
      held (empty body) = Keeps-map_err never _ _ _ (of_empty body)
      held (full body) = Keeps-map_err never _ _ _ (of_full body)
      held (incoming body) = Keeps-map_err network _ _ _ (of_incoming body)
      held (string body) = Keeps-map_err never _ _ _ (of_string body)

      keeps :
          (inner : Internal k)
          → Keeps
              (size_hint k (record { inner = inner }))
              (is_end_stream k (record { inner = inner }))
              (λ n. polls (poll_frame k) n (record { inner = inner }))
      keeps inner =
          Keeps-equal _ _ (λ n. inner_polls k n inner) _ (λ n. poll_frame-transparent k n inner)
            (held inner)
