-- ===== src/Tests/BodyExamples.antt =====
-- Bodies of src/body.rs that keep their promises.
use hudsucker.Prelude.{
  ℕ, zero, suc, ◌≤◌, ◌≡◌, refl, true, false, Option, none, some, List, [], ◌∷◌, arith, false≢true,
}
use hudsucker.Body.{http_body}
use hudsucker.Body.Frames.{polls}
use hudsucker.Body.Sizes.{IsHonest, total, ended, yields, http_body-IsHonest}
use hudsucker.Tests.IoSample.{bodies, Frame, SizeHint, bytes_of, poll_list, listed}

abbrev lower : SizeHint → ℕ
lower hint = hint.0

abbrev upper : SizeHint → Option ℕ
upper hint = hint.1

some_equal : (a b : ℕ) → some a ≡ some b → a ≡ b
some_equal a b e = cc

module _ (E : Type 0) where
  listed-total :
      (n : ℕ) (fs : List Frame) → total bodies (polls (poll_list {E = E}) n fs) ≤ bytes_of fs
  unfolding polls
  listed-total zero fs = omega arith
  listed-total (suc n) [] = omega (arith, listed-total n [])
  listed-total (suc n) (none ∷ fs) = omega (arith, listed-total n fs)
  listed-total (suc n) (some b ∷ fs) = omega (arith, listed-total n fs)

  listed-ended :
      (n : ℕ) (fs : List Frame)
      → ended bodies (polls (poll_list {E = E}) n fs) ≡ true
      → bytes_of fs ≤ total bodies (polls (poll_list {E = E}) n fs)
  unfolding polls
  listed-ended zero fs e = absurd (false≢true e)
  listed-ended (suc n) [] e = omega arith
  listed-ended (suc n) (none ∷ fs) e = omega (arith, listed-ended n fs e)
  listed-ended (suc n) (some b ∷ fs) e = omega (arith, listed-ended n fs e)

  listed-IsHonest : IsHonest bodies lower upper (listed E)
  listed-IsHonest fs = record {
    at_most = λ n m e. omega (arith, listed-total n fs, some_equal (bytes_of fs) m e);
    at_least = λ n has_ended unfailed. listed-ended n fs has_ended;
    no_more = λ n e. absurd (false≢true e);
  }

empty-yields : (n : ℕ) → yields bodies (polls bodies.empty.poll_frame n tt) ≡ false
unfolding polls
empty-yields zero = refl
empty-yields (suc n) = empty-yields n

empty-IsHonest : IsHonest bodies lower upper bodies.empty
empty-IsHonest body = record {
  at_most = λ n m e. absurd cc;
  at_least = λ n has_ended unfailed. omega arith;
  no_more = λ n e. empty-yields n;
}

box_body-IsHonest : IsHonest bodies lower upper bodies.box_body
box_body-IsHonest body = record {
  at_most = λ n m e. absurd cc;
  at_least = λ n has_ended unfailed. omega arith;
  no_more = λ n e. absurd (false≢true e);
}

http_body-IsHonest_example : IsHonest bodies lower upper (http_body bodies)
http_body-IsHonest_example =
    http_body-IsHonest bodies lower upper box_body-IsHonest (listed-IsHonest ⊥) empty-IsHonest
      (listed-IsHonest ⊥) (listed-IsHonest ℕ) (listed-IsHonest ⊥)
