-- ===== src/Upcall/Stats/Sums.antt =====
-- Sums of neighbouring counters, and what a bump does to them.
use native.Mathlib.Decide.{dec_lt}
use upcalls.Prelude.{
  ℕ, zero, suc, ◌+◌, ◌-◌, ◌^◌, ◌≤◌, ◌<◌, ◌≡◌, ◌≢◌, refl, ◌⊎◌, List, ◌∙◌, arith, length, get_or,
  get_or-set_self, get_or-set_ne,
}
use upcalls.Upcall.Stats.{bump}

-- The sum of the `n` counters from `i` on.
unfoldable pub sum_range : List ℕ → ℕ → ℕ → ℕ
sum_range xs i zero = 0
sum_range xs i (suc n) = get_or xs i 0 + sum_range xs (i + 1) n

pub get_or-bump_ne : (xs : List ℕ) (k j : ℕ) → k ≢ j → get_or (bump k xs) j 0 ≡ get_or xs j 0
get_or-bump_ne xs k j h = get_or-set_ne xs k j _ 0 h

pub get_or-bump_self :
    (xs : List ℕ) (k : ℕ)
    → k < length xs
    → get_or xs k 0 < 2 ^ 64 - 1
    → get_or (bump k xs) k 0 ≡ get_or xs k 0 + 1
get_or-bump_self xs k h small = get_or-set_self xs k _ 0 h ∙ omega arith

pub sum_range-bump_out :
    (xs : List ℕ) (k n i : ℕ) → (k < i) ⊎ (i + n ≤ k) → sum_range (bump k xs) i n ≡ sum_range xs i n
unfolding sum_range
sum_range-bump_out xs k zero i h = refl
sum_range-bump_out xs k (suc n) i h =
    omega
      (arith, get_or-bump_ne xs k i (omega arith), sum_range-bump_out xs k n (i + 1) (omega arith))

pub sum_range-bump :
    (xs : List ℕ) (k n i : ℕ)
    → k < length xs
    → get_or xs k 0 < 2 ^ 64 - 1
    → i ≤ k
    → k < i + n
    → sum_range (bump k xs) i n ≡ sum_range xs i n + 1
unfolding sum_range
sum_range-bump xs k zero i room small lo hi = absurd (omega arith)
sum_range-bump xs k (suc n) i room small lo hi = elim (dec_lt i k) [
  | yes later ↦ omega (
    arith,
    get_or-bump_ne xs k i (omega arith),
    sum_range-bump xs k n (i + 1) room small (omega arith) (omega arith),
  )
  | no here ↦
      let e : i ≡ k = omega arith in
      rw e (
        omega (
          arith,
          get_or-bump_self xs k room small,
          sum_range-bump_out xs k n (k + 1) (omega arith),
        ))
]

pub get_or-le-sum_range :
    (xs : List ℕ) (k n i : ℕ) → i ≤ k → k < i + n → get_or xs k 0 ≤ sum_range xs i n
unfolding sum_range
get_or-le-sum_range xs k zero i lo hi = absurd (omega arith)
get_or-le-sum_range xs k (suc n) i lo hi = elim (dec_lt i k) [
  | yes later ↦ omega (arith, get_or-le-sum_range xs k n (i + 1) (omega arith) (omega arith))
  | no here ↦ let e : i ≡ k = omega arith in rw e (omega arith)
]
