-- ===== src/Prelude/Text.antt =====
-- Byte strings as lists of numbers: literals, equality, joining.
use Prim.Native.Char.{code}
use Prim.Native.String.{String}
use Prim.Native.Nat.{ℕ}
use mathlib.Core.Path.{◌≡◌, refl}
use mathlib.Core.Logic.{◌↔◌, ◌≢◌}
use mathlib.Core.Bool.{Bool, true, false, ◌&&◌}
use mathlib.Core.List.{List, [], ◌∷◌, ◌++◌}
use native.Mathlib.Omega.{arith}
use hudsucker.Prelude.Tests.{nat_eq}

abbrev pub Bytes : Type 0
Bytes = List ℕ

-- The bytes of an ASCII literal.
abbrev pub codes : String → Bytes
codes String.[] = []
codes (String.◌∷◌ c s) = code c ∷ codes s

infix 50 ◌==◌
unfoldable pub ◌==◌ : Bytes → Bytes → Bool
[] == [] = true
[] == (y ∷ ys) = false
(x ∷ xs) == [] = false
(x ∷ xs) == (y ∷ ys) = nat_eq x y && xs == ys

==-sound : (a b : Bytes) → (a == b) ≡ true → a ≡ b
unfolding ◌==◌
==-sound [] [] h = refl
==-sound [] (y ∷ ys) h = cc
==-sound (x ∷ xs) [] h = cc
==-sound (x ∷ xs) (y ∷ ys) h = ground (arith, ==-sound xs ys)

pub ==_refl : (a : Bytes) → (a == a) ≡ true
unfolding ◌==◌
==_refl [] = refl
==_refl (x ∷ xs) = ground (arith, ==_refl xs)

pub ==_iff : (a b : Bytes) → ((a == b) ≡ true) ↔ (a ≡ b)
==_iff a b = (==-sound a b, λ e. rw e (==_refl b))

pub ==_of_ne : (a b : Bytes) → a ≢ b → (a == b) ≡ false
==_of_ne a b h = ground (arith, ==_iff a b)

-- `bstr::join` and `[T]::join`: the parts with the separator between them.
abbrev pub join : Bytes → List Bytes → Bytes
join sep [] = []
join sep (x ∷ []) = x
join sep (x ∷ y ∷ ys) = x ++ (sep ++ join sep (y ∷ ys))

-- `str::starts_with`.
pub starts_with : Bytes → Bytes → Bool
starts_with s [] = true
starts_with [] (c ∷ p) = false
starts_with (b ∷ s) (c ∷ p) = nat_eq b c && starts_with s p
