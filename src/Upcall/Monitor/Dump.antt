-- ===== src/Upcall/Monitor/Dump.antt =====
-- What the commands do: a dump lists every bucket that has a count, a reset clears both arrays.
use upcalls.Prelude.{
  ℕ, zero, suc, ◌+◌, ◌≤◌, ◌<◌, ◌≡◌, ◌≢◌, refl, inl, inr, Bool, true, Option, none, some, List, [],
  ◌∷◌, arith, take, ◌==◌, ==→eq, eq→==, ne_of_==, Bool-cases,
}
use upcalls.Upcall.Stats.{Shape}
use upcalls.Upcall.Monitor.{
  range_from, total_of, section, Monitor, Polled, same_bytes, starts, reset_word, run_command,
  batch_ctl_poll,
}

abbrev pub sum_counts : List (ℕ × ℕ) → ℕ
sum_counts [] = 0
sum_counts ((l, c) ∷ rest) = c + sum_counts rest

module _ (g : Shape) (label at : ℕ → ℕ) (n : ℕ) (xs : List ℕ) where
  abbrev pub sum_totals : List ℕ → ℕ
  sum_totals [] = 0
  sum_totals (b ∷ bs) = total_of g n xs (at b) + sum_totals bs

  -- Every line is that of a bucket `b` from `i` on, below `i + m`, with its total over the workers,
  -- which is not 0.
  abbrev pub Lines : (i m : ℕ) → List (ℕ × ℕ) → Type 0
  Lines i m [] = Unit {0}
  Lines i m ((l, c) ∷ rest) =
      ((b : ℕ) × (i ≤ b) × (b < i + m) × (l ≡ label b) × (c ≡ total_of g n xs (at b)) × (c ≢ 0))
      × Lines i m rest

  Lines-suc : (i m : ℕ) (ls : List (ℕ × ℕ)) → Lines (suc i) m ls → Lines i (suc m) ls
  Lines-suc i m [] h = tt
  Lines-suc i m (_ ∷ ls) ((b, p, q, l, c, z), h) =
      ((b, omega arith, omega arith, l, c, z), Lines-suc i m ls h)

  -- A section of a dump over `m` buckets from `i` on: each line is that of one of the buckets, with
  -- its count summed over the workers, modulo 2^64, which is not 0; and the counts of the lines add
  -- up to those of all the buckets, so that no bucket with a count is left out or listed twice.
  pub section-Lines :
      (i m : ℕ)
      → Lines i m (section g label at n xs (range_from i m))
        × (sum_counts (section g label at n xs (range_from i m)) ≡ sum_totals (range_from i m))
  unfolding section
  section-Lines i zero = (tt, refl)
  section-Lines i (suc m) =
      let rest = section-Lines (suc i) m in
      elim (Bool-cases (total_of g n xs (at i) == 0)) [
        | inl e ↦ rw (e) (Lines-suc i m _ rest.0, omega (arith, rest.1, ==→eq _ _ e))
        | inr e ↦ rw (e) (
          ((i, omega arith, omega arith, refl, refl, ne_of_== _ _ e), Lines-suc i m _ rest.0),
          omega (arith, rest.1),
        )
      ]

same_bytes_refl : (xs : List ℕ) → same_bytes xs xs ≡ true
same_bytes_refl [] = refl
same_bytes_refl (x ∷ xs) = rw (eq→== x x refl, same_bytes_refl xs) refl

module _ (g : Shape) (opens : List ℕ → Bool) (n : ℕ) where
  last_command :
      (cmd xs : List ℕ) (m : Monitor) → (run_command g opens n cmd xs m).monitor.last ≡ cmd
  last_command cmd xs m = elim (Bool-cases (starts reset_word cmd)) [
    | inl e ↦ rw (e) refl
    | inr e ↦ rw (e) refl
  ]

  abbrev pub again : Option (List ℕ) → Polled → Polled
  again text p = batch_ctl_poll g opens n text p.counters p.monitor

  -- A command is carried out once: if the command file is unchanged, the next poll changes neither
  -- the counters nor the baseline, and writes no file.
  pub poll_twice :
      (text : Option (List ℕ)) (xs : List ℕ) (m : Monitor)
      → again text (batch_ctl_poll g opens n text xs m)
        ≡ record (batch_ctl_poll g opens n text xs m) { file = none }
  unfolding batch_ctl_poll
  poll_twice none xs m = refl
  poll_twice (some text) xs m = elim (Bool-cases (same_bytes (take 255 text) m.last)) [
    | inl e ↦ rw (e, e) refl
    | inr e ↦ rw (e, last_command (take 255 text) xs m, same_bytes_refl (take 255 text)) refl
  ]
