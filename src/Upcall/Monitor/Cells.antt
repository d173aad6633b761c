-- ===== src/Upcall/Monitor/Cells.antt =====
-- The copy that the monitor keeps, and the cells of the rows that it prints.
use upcalls.Prelude.{
  ℕ, zero, suc, ◌+◌, ◌-◌, ◌*◌, get_or-replicate, ◌≤◌, ◌<◌, ◌≡◌, refl, ◌∙◌, ap, inl, inr, List, [],
  ◌∷◌, ◌++◌, map, arith, get_or, get_or-append, length, length-append, ltb, Bool-cases, ltb→lt,
  ltb→le,
}
use native.Mathlib.Decide.{dec_lt}
use upcalls.Upcall.Stats.{Shape, batch_at, utime_at, ktime_at}
use upcalls.Upcall.Monitor.{range, range_from, columns, counter_of, copy_slots, delta, rows, zeros}

length-map : {A B : Type 0} (f : A → B) (xs : List A) → length (map f xs) ≡ length xs
length-map f [] = refl
length-map f (x ∷ xs) = ap suc (length-map f xs)

length-range_from : (i n : ℕ) → length (range_from i n) ≡ n
length-range_from i zero = refl
length-range_from i (suc n) = ap suc (length-range_from (suc i) n)

get_or-map_range :
    {A : Type 0} (d : A) (f : ℕ → A) (i n k m : ℕ)
    → k < n
    → m ≡ i + k
    → get_or (map f (range_from i n)) k d ≡ f m
get_or-map_range d f i zero k m h e = absurd (omega arith)
get_or-map_range d f i (suc n) zero m h e = let at : i ≡ m = omega arith in ap f at
get_or-map_range d f i (suc n) (suc k) m h e =
    get_or-map_range d f (suc i) n k m (omega arith) (omega arith)

get_or-map :
    (f : ℕ → ℕ) (xs : List ℕ) (k : ℕ) → k < length xs → get_or (map f xs) k 0 ≡ f (get_or xs k 0)
get_or-map f [] k h = absurd (omega (arith, h))
get_or-map f (x ∷ xs) zero h = refl
get_or-map f (x ∷ xs) (suc k) h = get_or-map f xs k (omega (arith, h))

get_or-append_right :
    (xs ys : List ℕ) (k m : ℕ) → m ≡ length xs + k → get_or (xs ++ ys) m 0 ≡ get_or ys k 0
get_or-append_right [] ys k m e = let at : m ≡ k = omega arith in ap (λ i. get_or ys i 0) at
get_or-append_right (x ∷ xs) ys k zero e = absurd (omega arith)
get_or-append_right (x ∷ xs) ys k (suc m) e = get_or-append_right xs ys k m (omega arith)

module _ (g : Shape) where
  length-copy_slots :
      (n : ℕ) (copied : ℕ → List ℕ) → length (copy_slots g n copied) ≡ n * g.batch_stride
  length-copy_slots zero copied = omega arith
  length-copy_slots (suc n) copied = grind (
    arith,
    length-append (copy_slots g n copied) (map (counter_of g n (copied n)) (range g.batch_stride)),
    length-map (counter_of g n (copied n)) (range g.batch_stride),
    length-range_from 0 g.batch_stride,
    length-copy_slots n copied,
  )

  -- After the copy, `prev` has each counter of each worker as it was when it was copied.
  pub counter_of-copy_slots :
      (n : ℕ) (copied : ℕ → List ℕ) (w k : ℕ)
      → w < n
      → k < g.batch_stride
      → counter_of g w (copy_slots g n copied) k ≡ counter_of g w (copied w) k
  counter_of-copy_slots zero copied w k h l = absurd (omega arith)
  counter_of-copy_slots (suc n) copied w k h l = elim (Bool-cases (ltb w n)) [
    | inl e ↦
        get_or-append (copy_slots g n copied) _ (w * g.batch_stride + k) 0
          (in_slots w n k (ltb→lt _ _ e) l)
        ∙ counter_of-copy_slots n copied w k (ltb→lt _ _ e) l
    | inr e ↦ last_slot (ltb→le _ _ e)
  ]
    where
      in_slots :
          (w n k : ℕ)
          → w < n
          → k < g.batch_stride
          → w * g.batch_stride + k < length (copy_slots g n copied)
      in_slots w n k p q = grind (arith, length-copy_slots n copied)

      last_slot :
          n ≤ w → counter_of g w (copy_slots g (suc n) copied) k ≡ counter_of g w (copied w) k
      last_slot p =
          let same : n ≡ w = omega arith in
          get_or-append_right (copy_slots g n copied) _ k (w * g.batch_stride + k)
            (grind (arith, length-copy_slots n copied, same))
          ∙ get_or-map_range 0 (counter_of g n (copied n)) 0 g.batch_stride k k l (omega arith)
          ∙ ap (λ v. counter_of g v (copied v) k) same

  length-times :
      length (map (utime_at g) (range g.time_hist_len) ++ map (ktime_at g) (range g.time_hist_len))
      ≡ 2 * g.time_hist_len
  length-times = omega (
    arith,
    length-append (map (utime_at g) (range g.time_hist_len))
        (map (ktime_at g) (range g.time_hist_len)),
    length-map (utime_at g) (range g.time_hist_len),
    length-map (ktime_at g) (range g.time_hist_len),
    length-range_from 0 g.time_hist_len,
  )

  length-columns : length (columns g) ≡ 1 + g.batch_hist_len + 2 * g.time_hist_len
  unfolding columns
  length-columns = omega (
    arith,
    length-append (map batch_at (range g.batch_hist_len))
        (map (utime_at g) (range g.time_hist_len) ++ map (ktime_at g) (range g.time_hist_len)),
    length-map batch_at (range g.batch_hist_len),
    length-range_from 0 g.batch_hist_len,
    length-times,
  )

  time_column :
      (j : ℕ)
      → j < 2 * g.time_hist_len
      → get_or
          (map (utime_at g) (range g.time_hist_len) ++ map (ktime_at g) (range g.time_hist_len))
          j
          0
        ≡ 1 + g.batch_hist_len + j
  time_column j h = elim (dec_lt j g.time_hist_len) [
    | yes l ↦
        get_or-append (map (utime_at g) (range g.time_hist_len)) _ j 0 (omega (arith, l, len))
        ∙ get_or-map_range 0 (utime_at g) 0 g.time_hist_len j j l (omega arith)
    | no l ↦
        get_or-append_right (map (utime_at g) (range g.time_hist_len)) _ (j - g.time_hist_len) j
          (omega (arith, l, len))
        ∙ get_or-map_range 0 (ktime_at g) 0 g.time_hist_len (j - g.time_hist_len)
            (j - g.time_hist_len) (omega (arith, l, h)) (omega arith)
        ∙ omega (arith, l)
  ]
    where
      len : length (map (utime_at g) (range g.time_hist_len)) ≡ g.time_hist_len
      len = length-map (utime_at g) (range g.time_hist_len) ∙ length-range_from 0 g.time_hist_len

  later_column :
      (j : ℕ)
      → j < g.batch_hist_len + 2 * g.time_hist_len
      → get_or
          (map batch_at (range g.batch_hist_len)
            ++ (map (utime_at g) (range g.time_hist_len)
                ++ map (ktime_at g) (range g.time_hist_len)))
          j
          0
        ≡ suc j
  later_column j h = elim (dec_lt j g.batch_hist_len) [
    | yes l ↦
        get_or-append (map batch_at (range g.batch_hist_len)) _ j 0 (omega (arith, l, len))
        ∙ get_or-map_range 0 batch_at 0 g.batch_hist_len j j l (omega arith)
        ∙ omega arith
    | no l ↦
        get_or-append_right (map batch_at (range g.batch_hist_len)) _ (j - g.batch_hist_len) j
          (omega (arith, l, len))
        ∙ time_column (j - g.batch_hist_len) (omega (arith, l, h))
        ∙ omega (arith, l)
  ]
    where
      len : length (map batch_at (range g.batch_hist_len)) ≡ g.batch_hist_len
      len = length-map batch_at (range g.batch_hist_len) ∙ length-range_from 0 g.batch_hist_len

  -- The column `j` is that of the counter `j`.
  column : (j : ℕ) → j < 1 + g.batch_hist_len + 2 * g.time_hist_len → get_or (columns g) j 0 ≡ j
  unfolding columns
  column zero h = refl
  column (suc j) h = later_column j (omega (arith, h))

  -- The cell of the worker `w` in the column `j`.
  pub rows-delta :
      (n w j : ℕ) (seen : ℕ → List ℕ) (prev : List ℕ)
      → w < n
      → j < 1 + g.batch_hist_len + 2 * g.time_hist_len
      → get_or (get_or (rows g n seen prev) w []) j 0 ≡ delta g w j seen prev
  unfolding rows
  rows-delta n w j seen prev h l =
      ap (λ r. get_or r j 0)
        (get_or-map_range [] (λ w. map (λ k. delta g w k seen prev) (columns g)) 0 n w w h
          (omega arith))
      ∙ get_or-map (λ k. delta g w k seen prev) (columns g) j (omega (arith, l, length-columns))
      ∙ ap (λ k. delta g w k seen prev) (column j l)

  pub counter_of-zeros : (n w k : ℕ) → w < n → k < g.batch_stride → counter_of g w (zeros g n) k ≡ 0
  counter_of-zeros n w k h l =
      get_or-replicate (n * g.batch_stride) 0 0 (w * g.batch_stride + k) (grind (arith, h, l))
