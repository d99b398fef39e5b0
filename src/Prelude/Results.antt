-- ===== src/Prelude/Results.antt =====
-- Code that may panic, and code that returns a `Result`.
use mathlib.Core.Path.{◌≡◌, refl}
use mathlib.Core.Logic.{◌⊎◌, ◌≢◌, inl, inr}

-- `panic` is a failed `expect`.
pub data Outcome {ℓ} (A : Type ℓ) : Type ℓ where
  done : A → Outcome A
  panic : Outcome A

-- `Result<A, E>`.
pub data Result {ℓ κ} (A : Type ℓ) (E : Type κ) : Type (ℓ ⊔ κ) where
  ok : A → Result A E
  err : E → Result A E

pub Result-cases {ℓ κ} :
    {A : Type ℓ} {E : Type κ} (r : Result A E) → ((a : A) × (r ≡ ok a)) ⊎ ((e : E) × (r ≡ err e))
Result-cases (ok a) = inl (a, refl)
Result-cases (err e) = inr (e, refl)

pub Outcome-cases {ℓ} : {A : Type ℓ} (m : Outcome A) → ((a : A) × (m ≡ done a)) ⊎ (m ≡ panic)
Outcome-cases (done a) = inl (a, refl)
Outcome-cases panic = inr refl

-- `Poll<A>`.
pub data Poll {ℓ} (A : Type ℓ) : Type ℓ where
  ready : A → Poll A
  pending : Poll A

pub done-injective {ℓ} : {A : Type ℓ} {a b : A} → done a ≡ done b → a ≡ b
done-injective e = cc

pub ok-injective {ℓ κ} :
    {A : Type ℓ} {E : Type κ} {a b : A} → ◌≡◌ {A = Result A E} (ok a) (ok b) → a ≡ b
ok-injective e = cc

pub done-ne-panic {ℓ} : {A : Type ℓ} {a : A} → done a ≢ panic
done-ne-panic e = cc

-- `?`: the first error ends the code with it.
infixl 5 ◌>>=◌
abbrev pub ◌>>=◌ {ℓ κ ι} :
    {S : Type ℓ} {T : Type κ} {Err : Type ι} → Result S Err → (S → Result T Err) → Result T Err
err failure >>= next = err failure
ok value >>= next = next value

-- Code after code that may panic.
abbrev pub and_then {ℓ κ} : {A : Type ℓ} {B : Type κ} → Outcome A → (A → Outcome B) → Outcome B
and_then panic f = panic
and_then (done a) f = f a

pub err-ne-ok {ℓ κ} :
    {A : Type ℓ} {E : Type κ} {a : A} {e : E} → ◌≢◌ {A = Result A E} (err e) (ok a)
err-ne-ok e = cc

-- Code that succeeds ran to its end with each part a success.
pub ok_through {ℓ κ ι} :
    {S : Type ℓ} {T : Type κ} {Err : Type ι} (start : Result S Err) (next : S → Result T Err)
    (result : T)
    → (start >>= next) ≡ ok result
    → (between : S) × (start ≡ ok between) × (next between ≡ ok result)
ok_through (err failure) next result same = absurd (err-ne-ok same)
ok_through (ok value) next result same = (value, refl, same)
