-- ===== src/Prelude/Lists.antt =====
-- Lists measured by native numbers, under the library's names, and a predicate on all items.
use Prim.Native.Nat.{ℕ, zero, suc, ◌+◌, ◌-◌, min}
use mathlib.Core.Path.{◌≡◌, refl}
use mathlib.Core.Bool.{Bool, true, false}
use mathlib.Core.List.{
  List, [], ◌∷◌, ◌++◌, map, reverse, flat_map, reverse-cons, map-append, append_assoc, append-nil,
}
use mathlib.Core.Option.{Option, none, some}
use native.Mathlib.Nat.{zero-add, suc-add}
use native.Mathlib.Omega.{arith}

min-suc-suc : (a b : ℕ) → min (suc a) (suc b) ≡ suc (min a b)
min-suc-suc a b = omega arith

min-zero : (a : ℕ) → min a 0 ≡ 0
min-zero a = omega arith

module _ {ℓ} {A : Type ℓ} where
  abbrev pub length : List A → ℕ
  length [] = 0
  length (x ∷ xs) = suc (length xs)

  abbrev pub take : ℕ → List A → List A
  take zero xs = []
  take (suc n) [] = []
  take (suc n) (x ∷ xs) = x ∷ take n xs

  abbrev pub drop : ℕ → List A → List A
  drop zero xs = xs
  drop (suc n) [] = []
  drop (suc n) (x ∷ xs) = drop n xs

  abbrev pub is_empty : List A → Bool
  is_empty [] = true
  is_empty (x ∷ xs) = false

  abbrev pub first : List A → Option A
  first [] = none
  first (x ∷ xs) = some x

  pub length-append : (xs ys : List A) → length (xs ++ ys) ≡ length xs + length ys
  length-append [] ys = omega arith
  length-append (x ∷ xs) ys = omega (arith, length-append xs ys)

  pub take-append-drop : (n : ℕ) (xs : List A) → take n xs ++ drop n xs ≡ xs
  take-append-drop zero xs = refl
  take-append-drop (suc n) [] = refl
  take-append-drop (suc n) (x ∷ xs) = rw (take-append-drop n xs)

  pub length-take : (n : ℕ) (xs : List A) → length (take n xs) ≡ min n (length xs)
  length-take zero xs = omega arith
  length-take (suc n) [] = omega arith
  length-take (suc n) (x ∷ xs) = omega (arith, length-take n xs)

  pub length-drop : (n : ℕ) (xs : List A) → length (drop n xs) ≡ length xs - n
  length-drop zero xs = omega arith
  length-drop (suc n) [] = omega arith
  length-drop (suc n) (x ∷ xs) = omega (arith, length-drop n xs)

  take-nil : (i : ℕ) → ◌≡◌ {A = List A} (take i []) []
  take-nil zero = refl
  take-nil (suc i) = refl

  drop-nil : (i : ℕ) → ◌≡◌ {A = List A} (drop i []) []
  drop-nil zero = refl
  drop-nil (suc i) = refl

  pub take-append-take-drop :
      (n m : ℕ) (xs : List A) → take n xs ++ take m (drop n xs) ≡ take (n + m) xs
  take-append-take-drop zero m xs = rw zero-add
  take-append-take-drop (suc n) m [] = rw suc-add (take-nil m)
  take-append-take-drop (suc n) m (x ∷ xs) = rw (suc-add, take-append-take-drop n m xs)

  pub drop-drop : (n m : ℕ) (xs : List A) → drop m (drop n xs) ≡ drop (n + m) xs
  drop-drop zero m xs = rw zero-add
  drop-drop (suc n) m [] = rw suc-add (drop-nil m)
  drop-drop (suc n) m (x ∷ xs) = rw (suc-add, drop-drop n m xs)

  pub take-min : (n : ℕ) (xs : List A) → take (min (length xs) n) xs ≡ take n xs
  take-min zero xs = rw min-zero
  take-min (suc n) [] = take-nil _
  take-min (suc n) (x ∷ xs) = rw (min-suc-suc, take-min n xs)

  pub drop-min : (n : ℕ) (xs : List A) → drop (min (length xs) n) xs ≡ drop n xs
  drop-min zero xs = rw min-zero
  drop-min (suc n) [] = drop-nil _
  drop-min (suc n) (x ∷ xs) = rw (min-suc-suc, drop-min n xs)

module _ {ℓ κ} {A : Type ℓ} (P : A → Type κ) where
  abbrev pub All : List A → Type κ
  All [] = Unit
  All (x ∷ xs) = P x × All xs

  pub All-append : (xs ys : List A) → All xs → All ys → All (xs ++ ys)
  All-append [] ys h k = k
  All-append (x ∷ xs) ys h k = (h.0, All-append xs ys h.1 k)

  pub All-append-right : (xs ys : List A) → All (xs ++ ys) → All ys
  All-append-right [] ys h = h
  All-append-right (x ∷ xs) ys h = All-append-right xs ys h.1

  pub All-drop : (n : ℕ) (xs : List A) → All xs → All (drop n xs)
  All-drop zero xs h = h
  All-drop (suc n) [] h = h
  All-drop (suc n) (x ∷ xs) h = All-drop n xs h.1

pub map-All {ℓ κ ι} :
    {A : Type ℓ} (P : A → Type κ) (Q : A → Type ι) (xs : List A)
    → ((x : A) → P x → Q x)
    → All P xs
    → All Q xs
map-All P Q [] f h = tt
map-All P Q (x ∷ xs) f h = (f x h.0, map-All P Q xs f h.1)

module _ {ℓ κ} {A : Type ℓ} {B : Type κ} (f : A → B) where
  pub map-reverse : (xs : List A) → map f (reverse xs) ≡ reverse (map f xs)
  map-reverse [] = refl
  map-reverse (x ∷ xs) =
      rw (reverse-cons x xs, map-append, map-reverse xs, reverse-cons (f x) (map f xs))

module _ {ℓ κ} {A : Type ℓ} {B : Type κ} (f : A → List B) where
  pub flat_map-nil : flat_map f [] ≡ []
  unfolding flat_map
  flat_map-nil = refl

  pub flat_map-append : (xs ys : List A) → flat_map f (xs ++ ys) ≡ flat_map f xs ++ flat_map f ys
  unfolding flat_map
  flat_map-append [] ys = refl
  flat_map-append (x ∷ xs) ys = rw (flat_map-append xs ys, append_assoc)

  pub flat_map-map {ι} :
      {C : Type ι} (g : C → A) (xs : List C) → flat_map (λ x. f (g x)) xs ≡ flat_map f (map g xs)
  unfolding flat_map
  flat_map-map g [] = refl
  flat_map-map g (x ∷ xs) = rw (flat_map-map g xs)

  pub flat_map-singleton : (x : A) → flat_map f (x ∷ []) ≡ f x
  unfolding flat_map
  flat_map-singleton x = append-nil (f x)
