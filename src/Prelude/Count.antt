-- ===== src/Prelude/Count.antt =====
-- How many entries of a list there are of a kind, as a sum of weights.
use Prim.Native.Nat.{ℕ, ◌+◌, ◌≤◌}
use mathlib.Core.Path.{◌≡◌, refl}
use mathlib.Core.Bool.{Bool, true, false}
use mathlib.Core.Option.{Option, none, some}
use mathlib.Core.List.{List, [], ◌∷◌, ◌++◌}
use native.Mathlib.Omega.{arith}

abbrev pub one_if : Bool → ℕ
one_if true = 1
one_if false = 0

abbrev pub present {ℓ} : {A : Type ℓ} → Option A → ℕ
present none = 0
present (some a) = 1

module _ {ℓ} {A : Type ℓ} where
  -- The sum of weights.
  abbrev pub count : (A → ℕ) → List A → ℕ
  count f [] = 0
  count f (x ∷ xs) = f x + count f xs

  pub count-split :
      (f : A → ℕ) (xs ys : List A) (x : A) → count f (xs ++ x ∷ ys) ≡ f x + count f (xs ++ ys)
  count-split f [] ys x = refl
  count-split f (y ∷ xs) ys x = omega (arith, count-split f xs ys x)

  pub count-le : (f g : A → ℕ) → ((x : A) → f x ≤ g x) → (xs : List A) → count f xs ≤ count g xs
  count-le f g h [] = omega arith
  count-le f g h (x ∷ xs) = omega (arith, h x, count-le f g h xs)
