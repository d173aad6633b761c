-- ===== src/Startup/Progress.antt =====
-- The start does not hang: until all workers run, some thread can go on.
use upcalls.Prelude.{
  ℕ, zero, suc, ◌+◌, ◌<◌, ◌≡◌, ◌≢◌, ◌⊎◌, inl, inr, refl, ◌∙◌, ap, arith, assign, sum, sum-change,
}
use native.Mathlib.Decide.{dec_lt}
use upcalls.Startup.{
  WorkerPc, absent, setting_up, ready, at_gate, inside, running, MainPc, spawning, testing, waiting,
  releasing, returned, Gate, by_main, free, by_worker, Sys, set_worker, notify, test_count, Step,
  creates, created_all, tests, releases, sets_up, notifies, enters, leaves, Reach,
}
use upcalls.Startup.Safety.{notified, tally, made, Inv, Reach-Inv}

-- How far a worker and the main thread are from the end of the start.
abbrev pub rank : WorkerPc → ℕ
rank absent = 12
rank setting_up = 10
rank ready = 8
rank at_gate = 4
rank inside = 2
rank running = 0

abbrev pub main_rank : MainPc → ℕ
main_rank (spawning k) = 6
main_rank testing = 4
main_rank waiting = 2
main_rank releasing = 1
main_rank returned = 0

abbrev pub distance : ℕ → Sys → ℕ
distance nr s = sum nr (λ i. rank (s.worker i)) + main_rank s.main

-- A step that brings the end of the start nearer.
pub record GoesOn (nr : ℕ) (s : Sys) : Type 0 where
  pub next : Sys
  pub step : Step nr s next
  pub nearer : distance nr next < distance nr s

rank-change :
    (nr i : ℕ) (w : ℕ → WorkerPc) (p : WorkerPc)
    → i < nr
    → sum nr (λ j. rank (w j)) + rank p ≡ sum nr (λ j. rank (assign w i p j)) + rank (w i)
rank-change nr i w p l =
    ground (
      arith,
      sum-change nr (λ j. rank (w j)) (λ j. rank (assign w i p j)) i l (λ j d. ground arith),
    )

-- A worker that has not notified.
find_late : (n : ℕ) (w : ℕ → WorkerPc) → tally n w < n → (i : ℕ) × (i < n) × (notified (w i) ≡ 0)
find_late zero w h = absurd (omega (arith, h))
find_late (suc n) w h = elim (dec_lt 0 (notified (w n))) [
  | yes m ↦ let (i, l, e) = find_late n w (ground (arith, h)) in (i, omega (arith, l), e)
  | no m ↦ (n, omega arith, omega (arith, m))
]

-- Whether all of them run, or one does not.
find_idle :
    (n : ℕ) (w : ℕ → WorkerPc)
    → ((i : ℕ) → i < n → w i ≡ running) ⊎ ((i : ℕ) × (i < n) × (w i ≢ running))
find_idle zero w = inl (λ i l. absurd (omega (arith, l)))
find_idle (suc n) w = elim (find_idle n w) [
  | inr (i, l, d) ↦ inr (i, omega (arith, l), d)
  | inl all ↦ elim (dec_lt 0 (rank (w n))) [
    | yes m ↦ inr (n, omega arith, λ e. ground arith)
    | no m ↦ inl (λ i l. up_to i l m all)
  ]
]
  where
    up_to :
        (i : ℕ) → i < suc n → ¬ (0 < rank (w n)) → ((j : ℕ) → j < n → w j ≡ running) → w i ≡ running
    up_to i l m all = elim (dec_lt i n) [ yes k ↦ all i k | no k ↦ ground (arith, m) ]

module _ {nr : ℕ} {s : Sys} (v : Inv nr s) where
  open v use {shared, local}

  -- A worker that has been created and has not notified can go on.
  late_goes : (i : ℕ) → i < nr → made nr s.main ≡ nr → notified (s.worker i) ≡ 0 → GoesOn nr s
  late_goes i l m z = go (s.worker i) refl
    where
      go : (p : WorkerPc) → s.worker i ≡ p → GoesOn nr s
      go absent e = absurd ((local i).there (omega (arith, l, m)) e)
      go setting_up e = record {
        next = set_worker i ready s;
        step = sets_up i e;
        nearer = ground (arith, rank-change nr i s.worker ready l);
      }
      go ready e = record {
        next = notify i s;
        step = notifies i e;
        nearer = ground (arith, rank-change nr i s.worker at_gate l);
      }
      go at_gate e = cc
      go inside e = cc
      go running e = cc

  -- Once the lock is given up, a worker that does not run yet can go on, or another one has the lock.
  idle_goes : (i : ℕ) → i < nr → s.main ≡ returned → s.worker i ≢ running → GoesOn nr s
  idle_goes i l m d = go (s.worker i) refl
    where
      free_goes : (g : Gate) → s.worker i ≡ at_gate → s.gate ≡ g → GoesOn nr s
      free_goes by_main e f = absurd (shared.gate_shut m f)
      free_goes free e f = record {
        next = record (set_worker i inside s) { gate = by_worker i };
        step = enters i e f;
        nearer = ground (arith, rank-change nr i s.worker inside l);
      }
      free_goes (by_worker j) e f = record {
        next = record (set_worker j running s) { gate = free };
        step = leaves j ((local j).holder f);
        nearer = ground (arith, rank-change nr j s.worker running (within j f), (local j).holder f);
      }
        where
          within : (j : ℕ) → s.gate ≡ by_worker j → j < nr
          within j f = ground (arith, local j, m)

      go : (p : WorkerPc) → s.worker i ≡ p → GoesOn nr s
      go at_gate e = free_goes s.gate e refl
      go inside e = record {
        next = record (set_worker i running s) { gate = free };
        step = leaves i e;
        nearer = ground (arith, rank-change nr i s.worker running l);
      }
      go running e = absurd (d e)
      go absent e = late_goes i l (ap (made nr) m) (ap notified e)
      go setting_up e = late_goes i l (ap (made nr) m) (ap notified e)
      go ready e = late_goes i l (ap (made nr) m) (ap notified e)

  main_goes : (p : MainPc) → s.main ≡ p → GoesOn nr s ⊎ ((p ≡ returned) ⊎ (p ≡ waiting))
  main_goes (spawning k) e = elim (dec_lt k nr) [
    | yes l ↦ inl (record {
      next = record (set_worker k setting_up s) { main = spawning (suc k) };
      step = creates k e l;
      nearer = ground (arith, rank-change nr k s.worker setting_up l, local k);
    })
    | no l ↦ inl (record {
      next = record s { main = testing };
      step = created_all (e ∙ ap spawning (last l));
      nearer = ground arith;
    })
  ]
    where
      last : ¬ (k < nr) → k ≡ nr
      last l = ground (arith, shared)
  main_goes testing e =
      inl (record { next = test_count nr s; step = tests e; nearer = ground arith })
  main_goes waiting e = inr (inr refl)
  main_goes releasing e = inl (record {
    next = record s { main = returned; gate = free };
    step = releases e;
    nearer = ground arith;
  })
  main_goes returned e = inr (inl refl)

-- In every state that the start of a server can reach, all workers run and `init_threads` has
-- returned, or some thread can make a step that brings this end nearer: no wake-up is lost, and no
-- thread waits for a lock for ever. A wait that ends with no signal is not such a step.
pub start-GoesOn :
    {nr : ℕ} {s : Sys}
    → Reach nr s
    → GoesOn nr s ⊎ ((s.main ≡ returned) × ((i : ℕ) → i < nr → s.worker i ≡ running))
start-GoesOn {nr} {s} r = elim (main_goes v s.main refl) [
  | inl g ↦ inl g
  | inr (inr w) ↦
      let (i, l, z) = find_late nr s.worker (few w) in inl (late_goes v i l (all_made w) z)
  | inr (inl m) ↦ elim (find_idle nr s.worker) [
    | inl all ↦ inr (m, all)
    | inr (i, l, d) ↦ inl (idle_goes v i l m d)
  ]
]
  where
    v : Inv nr s
    v = Reach-Inv r

    few : s.main ≡ waiting → tally nr s.worker < nr
    few w = omega (arith, v.shared.counted, v.shared.main_waits w)

    all_made : s.main ≡ waiting → made nr s.main ≡ nr
    all_made w = ap (made nr) w
