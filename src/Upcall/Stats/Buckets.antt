-- ===== src/Upcall/Stats/Buckets.antt =====
-- The bucket of a time is its binary logarithm.
use native.Mathlib.Nat.{le_trans, pow-le-pow_right}
use native.Mathlib.Nat.{suc-sub-suc, sub-zero}
use native.Mathlib.Numerals.{add-one}
use native.Mathlib.Decide.{dec_lt}
use upcalls.Prelude.{
  ℕ, zero, suc, ◌+◌, ◌-◌, ◌^◌, ◌≤◌, ◌<◌, ◌≡◌, arith, lt→ltb, le→ltb, lt→leb, le→leb, ne→==,
}
use upcalls.Upcall.Stats.{leading_zeros, log2_of, time_bucket}

-- `b` is the bucket of `d`: `d` lies in [2^b, 2^(b+1)).
abbrev pub InBucket : ℕ → ℕ → Type 0
InBucket b d = (2 ^ b ≤ d) × (d < 2 ^ (b + 1))

leading_zeros_below : (k d : ℕ) → d < 2 ^ k → leading_zeros (suc k) d ≡ suc (leading_zeros k d)
unfolding leading_zeros
leading_zeros_below k d h = rw (lt→ltb d (2 ^ k) h)

leading_zeros_above : (k d : ℕ) → 2 ^ k ≤ d → leading_zeros (suc k) d ≡ 0
unfolding leading_zeros
leading_zeros_above k d h = rw (le→ltb d (2 ^ k) h)

leading_zeros-le : (k d : ℕ) → leading_zeros k d ≤ k
unfolding leading_zeros
leading_zeros-le zero d = omega arith
leading_zeros-le (suc k) d = ground (arith, leading_zeros-le k d)

leading_zeros-InBucket :
    (k d : ℕ) → 0 < d → d < 2 ^ suc k → InBucket (k - leading_zeros (suc k) d) d
leading_zeros-InBucket zero d h lt = rw (leading_zeros_above 0 d h) (h, lt)
leading_zeros-InBucket (suc k) d h lt = elim (dec_lt d (2 ^ suc k)) [
  | yes small ↦
      rw (leading_zeros_below (suc k) d small, suc-sub-suc) (leading_zeros-InBucket k d h small)
  | no large ↦ rw (leading_zeros_above (suc k) d (omega arith), sub-zero, add-one) (omega arith, lt)
]

log2_of-InBucket : (d : ℕ) → 0 < d → d < 2 ^ 64 → InBucket (log2_of d) d
unfolding log2_of
log2_of-InBucket d h lt = rw (ne→== d 0 (omega arith)) (leading_zeros-InBucket 63 d h lt)

log2_of-zero : (d : ℕ) → d ≡ 0 → log2_of d ≡ 0
unfolding log2_of
log2_of-zero d e = rw e

-- For a time other than 0 the bucket is below the number of buckets, the time is at least 2^bucket,
-- and below 2^(bucket + 1) in every bucket but the last.
pub time_bucket_lem :
    (hist_len d : ℕ)
    → 0 < hist_len
    → d < 2 ^ 64
    → let b = time_bucket hist_len d in
      (b < hist_len)
      × (0 < d → 2 ^ b ≤ d)
      × (0 < d → suc b < hist_len → d < 2 ^ (b + 1))
      × (d ≡ 0 → b ≡ 0)
unfolding time_bucket
time_bucket_lem n d h lt = elim (dec_lt (log2_of d) n) [
  | yes small ↦
      rw (lt→leb n (log2_of d) small) (
        small,
        λ p. (log2_of-InBucket d p lt).0,
        λ p _. (log2_of-InBucket d p lt).1,
        log2_of-zero d,
      )
  | no large ↦ rw (le→leb n (log2_of d) (omega arith)) (
    omega arith,
    λ p.
        le_trans (pow-le-pow_right (omega arith) {j = log2_of d} (omega arith))
          (log2_of-InBucket d p lt).0,
    λ p q. absurd (omega arith),
    λ e. omega (arith, log2_of-zero d e),
  )
]
