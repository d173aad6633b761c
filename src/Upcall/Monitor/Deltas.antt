-- ===== src/Upcall/Monitor/Deltas.antt =====
-- What the rows of the CSV show of the counters, over some intervals.
use upcalls.Prelude.{
  ℕ, ◌+◌, ◌*◌, ◌^◌, ◌<◌, ◌≡◌, inl, inr, Bool-cases, List, [], ◌∷◌, arith, get_or, u64, minus64,
  if◌then◌else◌,
}
use upcalls.Upcall.Stats.{Shape}
use upcalls.Upcall.Stats.Layout.{IsShape}
use upcalls.Upcall.Monitor.{Interval, counter_of, copy_slots, rows, zeros, next_prev}
use upcalls.Upcall.Monitor.Cells.{counter_of-copy_slots, rows-delta, counter_of-zeros}

module _ (g : Shape) where
  -- The sum of one cell of the rows over some intervals.
  unfoldable pub shown : (n w j : ℕ) → List Interval → List ℕ → ℕ
  shown n w j [] prev = 0
  shown n w j (i ∷ is) prev =
      u64 (get_or (get_or (rows g n i.seen prev) w []) j 0 + shown n w j is (next_prev g n i))

  -- What was counted between the print of a row and its copy, summed over the intervals.
  unfoldable pub missed : (w j : ℕ) → List Interval → ℕ
  missed w j [] = 0
  missed w j (i ∷ is) =
      u64 (minus64 (counter_of g w (i.copied w) j) (counter_of g w (i.seen w) j) + missed w j is)

  -- By how much the counter grew from `base` to its last copy, which was `last` so far, and after
  -- each reset from 0 to its last copy before the next.
  unfoldable pub growth : (w j : ℕ) → List Interval → (base last : ℕ) → ℕ
  growth w j [] base last = minus64 last base
  growth w j (i ∷ is) base last =
      let at = counter_of g w (i.copied w) j in
      if i.reset then u64 (minus64 at base + growth w j is 0 0) else growth w j is base at

  -- Counters are words.
  abbrev pub AreWords : (w j : ℕ) → List Interval → Type 0
  AreWords w j [] = Unit {0}
  AreWords w j (i ∷ is) =
      (counter_of g w (i.seen w) j < 2 ^ 64)
      × (counter_of g w (i.copied w) j < 2 ^ 64)
      × AreWords w j is

  add_up :
      (x y p base show miss total : ℕ)
      → x < 2 ^ 64
      → y < 2 ^ 64
      → p < 2 ^ 64
      → base < 2 ^ 64
      → u64 (minus64 y base + show + miss) ≡ total
      → u64 (minus64 p base + u64 (minus64 x p + show) + u64 (minus64 y x + miss)) ≡ total
  add_up x y p base show miss total a b c d e = omega arith

  add_reset :
      (x y p base show miss total : ℕ)
      → x < 2 ^ 64
      → y < 2 ^ 64
      → p < 2 ^ 64
      → base < 2 ^ 64
      → u64 (minus64 0 0 + show + miss) ≡ total
      → u64 (minus64 p base + u64 (minus64 x p + show) + u64 (minus64 y x + miss))
        ≡ u64 (minus64 y base + total)
  add_reset x y p base show miss total a b c d e = omega arith

  module _ (is_shape : IsShape g) (n w j : ℕ) (h : w < n)
      (l : j < 1 + g.batch_hist_len + 2 * g.time_hist_len) where
    inside : j < g.batch_stride
    inside = omega (arith, l, is_shape.room)

    from_base :
        (is : List Interval) (prev : List ℕ) (base : ℕ)
        → AreWords w j is
        → counter_of g w prev j < 2 ^ 64
        → base < 2 ^ 64
        → u64 (minus64 (counter_of g w prev j) base + shown n w j is prev + missed w j is)
          ≡ growth w j is base (counter_of g w prev j)
    unfolding shown missed growth
    from_base [] prev base a b c = omega (arith, b, c)
    from_base (i ∷ is) prev base (a, d, v) b c =
        rw (rows-delta g n w j i.seen prev h l) (elim (Bool-cases i.reset) [
          | inl e ↦ rw (e) (
              add_reset (counter_of g w (i.seen w) j) (counter_of g w (i.copied w) j)
                (counter_of g w prev j) base _ _ _ a d b c
                (rw (counter_of-zeros g n w j h inside) at (
                  from_base is (zeros g n) 0 v
                    (rw (counter_of-zeros g n w j h inside) (omega arith)) (omega arith))))
          | inr e ↦ rw (e) (
              add_up (counter_of g w (i.seen w) j) (counter_of g w (i.copied w) j)
                (counter_of g w prev j) base _ _ _ a d b c
                (rw (counter_of-copy_slots g n i.copied w j h inside) at (
                  from_base is (copy_slots g n i.copied) base v
                    (rw (counter_of-copy_slots g n i.copied w j h inside) d) c)))
        ])

    -- Take slots of a well-formed layout, with room for all the counters. For each worker and each of
    -- its counters (the submits, then the batches by size, then the times outside and inside
    -- `upcall_submit`), over any number of intervals: the cells of the rows in the counter's own
    -- column, and what was counted between the print of a row and the copy after it, add up, modulo
    -- 2^64, to what the counter grew by from the baseline to its last copy; after each `reset` the
    -- growth starts from 0 again. If nothing is counted between print and copy, no count up to the
    -- last copy before a reset is lost and none is shown twice.
    pub shown-missed :
        (is : List Interval) (prev : List ℕ)
        → AreWords w j is
        → counter_of g w prev j < 2 ^ 64
        → u64 (shown n w j is prev + missed w j is)
          ≡ growth w j is (counter_of g w prev j) (counter_of g w prev j)
    shown-missed is prev a b = omega (arith, b, from_base is prev (counter_of g w prev j) a b b)
