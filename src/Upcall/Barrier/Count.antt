-- ===== src/Upcall/Barrier/Count.antt =====
-- How many workers have passed the first critical section.
use upcalls.Prelude.{ℕ, zero, suc, ◌+◌, ◌≤◌, ◌<◌, ◌≡◌, refl, arith}
use native.Mathlib.Decide.{ℕ_discrete}
use upcalls.Upcall.Barrier.{WorkerPc, absent, blocked, woken, looping, update}

-- 1 for a worker that has counted itself in `g_init_count`.
abbrev pub arrived : WorkerPc → ℕ
arrived blocked = 1
arrived woken = 1
arrived looping = 1
arrived _ = 0

pub tally : ℕ → (ℕ → WorkerPc) → ℕ
tally zero f = 0
tally (suc n) f = arrived (f n) + tally n f

arrived-le : (p : WorkerPc) → arrived p ≤ 1
arrived-le absent = omega arith
arrived-le _ = omega arith

tally-above :
    (n : ℕ) (f : ℕ → WorkerPc) (i : ℕ) (p : WorkerPc) → n ≤ i → tally n (update f i p) ≡ tally n f
unfolding tally
tally-above zero f i p h = refl
tally-above (suc n) f i p h = ground (arith, tally-above n f i p)

-- One worker moves: the tally moves by what that worker counts.
pub tally-update :
    (n : ℕ) (f : ℕ → WorkerPc) (i : ℕ) (p : WorkerPc)
    → i < n
    → tally n (update f i p) + arrived (f i) ≡ tally n f + arrived p
unfolding tally
tally-update zero f i p h = absurd (omega arith)
tally-update (suc n) f i p h = elim (ℕ_discrete i n) [
  | yes e ↦ ground (arith, tally-above n f i p)
  | no ne ↦ ground (arith, tally-update n f i p)
]

pub tally-le : (n : ℕ) (f : ℕ → WorkerPc) → tally n f ≤ n
unfolding tally
tally-le zero f = omega arith
tally-le (suc n) f = omega (arith, arrived-le (f n), tally-le n f)

-- If the tally is full, every worker has arrived.
pub arrived_of-tally :
    (n : ℕ) (f : ℕ → WorkerPc) (i : ℕ) → tally n f ≡ n → i < n → arrived (f i) ≡ 1
unfolding tally
arrived_of-tally zero f i e h = absurd (omega arith)
arrived_of-tally (suc n) f i e h = elim (ℕ_discrete i n) [
  | yes last ↦ rw last (omega (arith, arrived-le (f n), tally-le n f))
  | no ne ↦ arrived_of-tally n f i (omega (arith, arrived-le (f n), tally-le n f)) (omega arith)
]

-- If it is not, some worker has not.
pub missing_of-tally :
    (n : ℕ) (f : ℕ → WorkerPc) → tally n f < n → (i : ℕ) × (i < n) × (arrived (f i) ≡ 0)
unfolding tally
missing_of-tally zero f h = absurd (omega arith)
missing_of-tally (suc n) f h = elim (ℕ_discrete (arrived (f n)) 0) [
  | yes e ↦ (n, omega arith, e)
  | no ne ↦ let (i, below, none) = missing_of-tally n f (omega arith) in (i, omega arith, none)
]

pub tally_congr :
    (n : ℕ) (f g : ℕ → WorkerPc) → ((i : ℕ) → arrived (f i) ≡ arrived (g i)) → tally n f ≡ tally n g
unfolding tally
tally_congr zero f g h = refl
tally_congr (suc n) f g h = omega (arith, h n, tally_congr n f g h)

pub tally-absent : (n : ℕ) → tally n (λ _. absent) ≡ 0
unfolding tally
tally-absent zero = refl
tally-absent (suc n) = omega (arith, tally-absent n)
