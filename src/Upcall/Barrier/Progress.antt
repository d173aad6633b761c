-- ===== src/Upcall/Barrier/Progress.antt =====
-- The start-up never gets stuck: until all workers loop, some thread can take a step that brings
-- the end nearer.
use upcalls.Prelude.{
  ℕ, zero, suc, ◌+◌, ◌-◌, ◌≤◌, ◌<◌, ◌≡◌, ◌≢◌, refl, ◌∙◌, ap, ◌⊎◌, inl, inr, Bool, true, false,
  arith,
}
use native.Mathlib.Decide.{dec_lt, ℕ_discrete}
use upcalls.Upcall.Barrier.{
  WorkerPc, absent, spawned, ready, blocked, woken, looping, MainPc, spawning, testing,
  main_blocked, returned, gone, Sys, update, broadcast, test_go, Step, create, created_all, set_up,
  arrives, tests_go, spurious, tests_count, main_spurious, calls_go, Reach, start, later,
}
use upcalls.Upcall.Barrier.Count.{arrived, arrived_of-tally, missing_of-tally, tally}
use upcalls.Upcall.Barrier.Safety.{past_init, Inv, Reach-Inv}

-- How many workers are created.
abbrev created : ℕ → MainPc → ℕ
created nr (spawning k) = k
created nr _ = nr

record Live (nr : ℕ) (s : Sys) : Type 0 where
  bounded : created nr s.main ≤ nr
  gone_go : s.main ≡ gone → s.go ≡ true
  there : (i : ℕ) → i < created nr s.main → s.worker i ≢ absent

module _ {nr : ℕ} {s : Sys} (live : Live nr s) where
  open live use {bounded, gone_go, there}

  move-Live :
      (i : ℕ) (p : WorkerPc) → p ≢ absent → Live nr (record s { worker = update s.worker i p })
  move-Live i p here = record {
    bounded = bounded;
    gone_go = gone_go;
    there = λ j h. ground (arith, there j, here);
  }

  Step-Live : {t : Sys} → Step nr s t → Live nr t
  Step-Live (create k e lt) = record {
    bounded = omega arith;
    gone_go = λ h. cc;
    there = λ j h. ground (arith, there j);
  }
  Step-Live (created_all e) = record {
    bounded = omega arith;
    gone_go = λ h. cc;
    there = λ j h. ground (arith, there j);
  }
  Step-Live (set_up i e) = move-Live i ready (λ x. cc)
  Step-Live (arrives i e) = record {
    bounded = ground (arith, bounded);
    gone_go = λ h. ground (arith, gone_go);
    there = λ j h. ground (arith, there j);
  }
  Step-Live (tests_go i e) = move-Live i (test_go s.go) (λ x. ground arith)
  Step-Live (spurious i e) = move-Live i woken (λ x. cc)
  Step-Live (tests_count e) = record {
    bounded = ground arith;
    gone_go = λ h. ground arith;
    there = λ j h. ground (arith, there j);
  }
  Step-Live (main_spurious e) = record {
    bounded = ground arith;
    gone_go = λ h. cc;
    there = λ j h. ground (arith, there j);
  }
  Step-Live (calls_go e) = record {
    bounded = omega arith;
    gone_go = λ h. refl;
    there = λ j h. ground (arith, there j);
  }

Reach-Live : {nr : ℕ} {s : Sys} → Reach nr s → Live nr s
Reach-Live start = record {
  bounded = omega arith;
  gone_go = λ h. cc;
  there = λ i h. absurd (omega arith);
}
Reach-Live (later r st) = Step-Live (Reach-Live r) st

-- How far a worker is from the event loop, and the main thread from the end of the start-up.
abbrev worker_rank : WorkerPc → ℕ
worker_rank absent = 12
worker_rank spawned = 10
worker_rank ready = 8
worker_rank blocked = 4
worker_rank woken = 2
worker_rank looping = 0

abbrev main_rank : ℕ → MainPc → ℕ
main_rank nr (spawning k) = 4 + (nr - k)
main_rank nr testing = 3
main_rank nr main_blocked = 2
main_rank nr returned = 1
main_rank nr gone = 0

workers_rank : ℕ → (ℕ → WorkerPc) → ℕ
workers_rank zero f = 0
workers_rank (suc n) f = worker_rank (f n) + workers_rank n f

-- The sum over all threads.
pub rank : ℕ → Sys → ℕ
unfolding workers_rank
rank nr s = main_rank nr s.main + workers_rank nr s.worker

rank-above :
    (n : ℕ) (f : ℕ → WorkerPc) (i : ℕ) (p : WorkerPc)
    → n ≤ i
    → workers_rank n (update f i p) ≡ workers_rank n f
unfolding workers_rank
rank-above zero f i p h = refl
rank-above (suc n) f i p h = ground (arith, rank-above n f i p)

rank-update :
    (n : ℕ) (f : ℕ → WorkerPc) (i : ℕ) (p : WorkerPc)
    → i < n
    → workers_rank n (update f i p) + worker_rank (f i) ≡ workers_rank n f + worker_rank p
unfolding workers_rank
rank-update zero f i p h = absurd (omega arith)
rank-update (suc n) f i p h = elim (ℕ_discrete i n) [
  | yes e ↦ ground (arith, rank-above n f i p)
  | no ne ↦ ground (arith, rank-update n f i p)
]

broadcast-rank-le :
    (n : ℕ) (f : ℕ → WorkerPc) → workers_rank n (λ i. broadcast (f i)) ≤ workers_rank n f
unfolding workers_rank
broadcast-rank-le zero f = omega arith
broadcast-rank-le (suc n) f = ground (arith, broadcast-rank-le n f)

-- All workers loop, or one below `n` does not.
all_looping :
    (n : ℕ) (f : ℕ → WorkerPc)
    → ((i : ℕ) → i < n → f i ≡ looping) ⊎ ((i : ℕ) × (i < n) × (f i ≢ looping))
all_looping zero f = inl (λ i h. absurd (omega arith))
all_looping (suc n) f = go (f n) refl (all_looping n f)
  where
    go :
        (p : WorkerPc)
        → f n ≡ p
        → ((i : ℕ) → i < n → f i ≡ looping) ⊎ ((i : ℕ) × (i < n) × (f i ≢ looping))
        → ((i : ℕ) → i < suc n → f i ≡ looping) ⊎ ((i : ℕ) × (i < suc n) × (f i ≢ looping))
    go looping e (inl all) =
        inl (λ i h. elim (ℕ_discrete i n) [ yes q ↦ rw q e | no ne ↦ all i (omega arith) ])
    go p e (inr (i, h, ne)) = inr (i, omega arith, ne)
    go p e (inl all) = inr (n, omega arith, λ x. cc)

-- A step other than the end of a wait with no signal.
abbrev pub genuine : {nr : ℕ} {s t : Sys} → Step nr s t → Bool
genuine (spurious i e) = false
genuine (main_spurious e) = false
genuine _ = true

-- A step towards the end.
abbrev pub Nearer : ℕ → Sys → Type 0
Nearer nr s = (t : Sys) × (st : Step nr s t) × (genuine st ≡ true) × (rank nr t < rank nr s)

module _ {nr : ℕ} {s : Sys} (inv : Inv nr s) (live : Live nr s) where
  open inv use {counted, main_waits, all_in, go_gone, none_lost, fresh, inside}
  open live use {bounded, gone_go, there}

  worker_move :
      (i : ℕ) (p : WorkerPc)
      → i < nr
      → worker_rank p < worker_rank (s.worker i)
      → rank nr (record s { worker = update s.worker i p }) < rank nr s
  unfolding rank
  worker_move i p lt less = omega (arith, less, rank-update nr s.worker i p lt)

  spawning-Nearer : (k : ℕ) → s.main ≡ spawning k → Nearer nr s
  unfolding rank
  spawning-Nearer k e = elim (dec_lt k nr) [
    | yes lt ↦
        (_, create k e lt, refl, ground (arith, fresh k e k, rank-update nr s.worker k spawned lt))
    | no ge ↦
        let last : k ≡ nr = ground (arith, bounded) in
        (_, created_all (e ∙ ap spawning last), refl, ground arith)
  ]

  testing-Nearer : s.main ≡ testing → Nearer nr s
  unfolding rank
  testing-Nearer e = (_, tests_count e, refl, ground arith)

  returned-Nearer : s.main ≡ returned → Nearer nr s
  unfolding rank
  returned-Nearer e = (_, calls_go e, refl, ground (arith, broadcast-rank-le nr s.worker))

  arrive-Nearer : (i : ℕ) → i < nr → s.worker i ≡ ready → Nearer nr s
  unfolding rank
  arrive-Nearer i lt e =
      (_, arrives i e, refl, ground (arith, rank-update nr s.worker i (test_go s.go) lt))

  blocked-Nearer : s.main ≡ main_blocked → Nearer nr s
  blocked-Nearer e = go (s.worker i) refl
    where
      short : tally nr s.worker < nr
      short = omega (arith, counted, main_waits e)

      i : ℕ
      i = (missing_of-tally nr s.worker short).0

      lt : i < nr
      lt = (missing_of-tally nr s.worker short).1

      missing : arrived (s.worker i) ≡ 0
      missing = (missing_of-tally nr s.worker short).2

      go : (p : WorkerPc) → s.worker i ≡ p → Nearer nr s
      go absent q = absurd (there i (ground arith) q)
      go spawned q = (_, set_up i q, refl, worker_move i ready lt (ground arith))
      go ready q = arrive-Nearer i lt q
      go p q = absurd (ground arith)

  gone-Nearer : s.main ≡ gone → ((i : ℕ) → i < nr → s.worker i ≡ looping) ⊎ Nearer nr s
  gone-Nearer e = elim (all_looping nr s.worker) [
    | inl all ↦ inl all
    | inr (i, lt, ne) ↦ inr (go i lt ne (s.worker i) refl)
  ]
    where
      go : (i : ℕ) → i < nr → s.worker i ≢ looping → (p : WorkerPc) → s.worker i ≡ p → Nearer nr s
      go i lt ne woken q =
          (_, tests_go i q, refl, worker_move i (test_go s.go) lt (ground (arith, gone_go e)))
      go i lt ne p q = absurd (
          ground (
            arith,
            none_lost (gone_go e) i,
            arrived_of-tally nr s.worker i (omega (arith, counted, all_in (ap past_init e))) lt,
          ))

-- In every reachable state all workers are in the event loop, or some thread can take a step that
-- is no spurious wake-up of a wait and that brings the sum of the threads' distances from the end
-- down: the start-up cannot get stuck.
pub start_progress :
    {nr : ℕ} {s : Sys} → Reach nr s → ((i : ℕ) → i < nr → s.worker i ≡ looping) ⊎ Nearer nr s
start_progress {nr} {s} r = go s.main refl
  where
    inv : Inv nr s
    inv = Reach-Inv r

    live : Live nr s
    live = Reach-Live r

    go : (p : MainPc) → s.main ≡ p → ((i : ℕ) → i < nr → s.worker i ≡ looping) ⊎ Nearer nr s
    go (spawning k) e = inr (spawning-Nearer inv live k e)
    go testing e = inr (testing-Nearer inv live e)
    go main_blocked e = inr (blocked-Nearer inv live e)
    go returned e = inr (returned-Nearer inv live e)
    go gone e = gone-Nearer inv live e
