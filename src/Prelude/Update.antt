-- ===== src/Prelude/Update.antt =====
-- Tables that give a value for every index, and sums over their first entries.
use Prim.Native.Nat.{ℕ, zero, suc, ◌+◌, ◌<◌}
use mathlib.Core.Path.{◌≡◌, refl, ap₂, subst}
use mathlib.Core.Logic.{◌≢◌}
use native.Mathlib.Omega.{arith}
use native.Mathlib.Decide.{ℕ_discrete}
use upcalls.Prelude.Tests.{◌==◌, if◌then◌else◌, ne→==, eq→==}

abbrev pub assign {ℓ} : {A : Type ℓ} → (ℕ → A) → ℕ → A → ℕ → A
assign f i v j = if i == j then v else f j

pub assign_self {ℓ} : {A : Type ℓ} (f : ℕ → A) (i : ℕ) (v : A) → assign f i v i ≡ v
assign_self f i v = rw (eq→== i i refl) refl

pub assign-ne {ℓ} : {A : Type ℓ} (f : ℕ → A) (i j : ℕ) (v : A) → i ≢ j → assign f i v j ≡ f j
assign-ne f i j v h = rw (ne→== i j h) refl

-- The sum of the first `n` values of `f`.
abbrev pub sum : ℕ → (ℕ → ℕ) → ℕ
sum zero f = 0
sum (suc n) f = sum n f + f n

pub sum_congr : (n : ℕ) (f g : ℕ → ℕ) → ((j : ℕ) → j < n → f j ≡ g j) → sum n f ≡ sum n g
sum_congr zero f g h = refl
sum_congr (suc n) f g h =
    ap₂ (λ a b. a + b) (sum_congr n f g (λ j l. h j (omega arith))) (h n (omega arith))

-- Two tables that differ at `i` only.
pub sum-change :
    (n : ℕ) (f g : ℕ → ℕ) (i : ℕ)
    → i < n
    → ((j : ℕ) → i ≢ j → f j ≡ g j)
    → sum n f + g i ≡ sum n g + f i
sum-change zero f g i l h = absurd (omega arith)
sum-change (suc n) f g i l h = elim (ℕ_discrete i n) [
  | yes e ↦
      subst (λ k. (sum k f + f k) + g i ≡ (sum k g + g k) + f i) e
        (omega (arith, sum_congr i f g (λ j m. h j (λ x. omega (arith, x)))))
  | no d ↦ omega (arith, h n d, sum-change n f g i (lt_of n i l d) h)
]
  where
    lt_of : (n i : ℕ) → i < suc n → i ≢ n → i < n
    lt_of n i l d = omega (arith, l, d)

pub sum-zero : (n : ℕ) → sum n (λ j. 0) ≡ 0
sum-zero zero = refl
sum-zero (suc n) = omega (arith, sum-zero n)
