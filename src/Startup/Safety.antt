-- ===== src/Startup/Safety.antt =====
-- No worker runs before all have set up.
use upcalls.Prelude.{
  ℕ, zero, suc, ◌+◌, ◌≤◌, ◌<◌, ◌≡◌, ◌≢◌, ap, Bool, true, false, arith, assign, sum, sum-change,
  sum-zero,
}
use native.Mathlib.Decide.{dec_lt}
use upcalls.Startup.{
  WorkerPc, absent, setting_up, ready, at_gate, inside, running, MainPc, spawning, waiting,
  releasing, returned, by_main, by_worker, Sys, Step, creates, created_all, tests, spurious,
  releases, sets_up, notifies, enters, leaves, init, Reach, start, later,
}

-- Whether a worker has notified the main thread.
abbrev pub notified : WorkerPc → ℕ
notified at_gate = 1
notified inside = 1
notified running = 1
notified _ = 0

abbrev pub tally : ℕ → (ℕ → WorkerPc) → ℕ
tally n w = sum n (λ i. notified (w i))

-- After the loop over the CPUs, and after the wait.
abbrev pub past_wait : MainPc → Bool
past_wait releasing = true
past_wait returned = true
past_wait _ = false

abbrev pub past_gate : WorkerPc → Bool
past_gate inside = true
past_gate running = true
past_gate _ = false

-- How many workers there are.
abbrev pub made : ℕ → MainPc → ℕ
made nr (spawning k) = k
made nr _ = nr

pub record Shared (nr : ℕ) (s : Sys) : Type 0 where
  pub counted : s.init_count ≡ tally nr s.worker
  pub main_waits : s.main ≡ waiting → s.init_count < nr
  pub all_in : past_wait s.main ≡ true → s.init_count ≡ nr
  pub gate_open : s.gate ≢ by_main → s.main ≡ returned
  pub gate_shut : s.main ≡ returned → s.gate ≢ by_main
  pub in_bounds : made nr s.main ≤ nr

-- What holds of one worker.
pub record Local (nr : ℕ) (s : Sys) (i : ℕ) : Type 0 where
  pub past_returned : past_gate (s.worker i) ≡ true → s.main ≡ returned
  pub holder : s.gate ≡ by_worker i → s.worker i ≡ inside
  pub holds : s.worker i ≡ inside → s.gate ≡ by_worker i
  pub there : i < made nr s.main → s.worker i ≢ absent
  pub not_there : made nr s.main ≤ i → s.worker i ≡ absent

pub record Inv (nr : ℕ) (s : Sys) : Type 0 where
  pub shared : Shared nr s
  pub local : (i : ℕ) → Local nr s i

tally-change :
    (nr i : ℕ) (w : ℕ → WorkerPc) (p : WorkerPc)
    → i < nr
    → tally nr w + notified p ≡ tally nr (assign w i p) + notified (w i)
tally-change nr i w p l = ground (
  arith,
  sum-change nr (λ j. notified (w j)) (λ j. notified (assign w i p j)) i l (λ j d. ground arith),
)

pub tally-le : (n : ℕ) (w : ℕ → WorkerPc) → tally n w ≤ n
tally-le zero w = omega arith
tally-le (suc n) w = ground (arith, tally-le n w)

pub notified_of-tally :
    (n : ℕ) (w : ℕ → WorkerPc) → tally n w ≡ n → (i : ℕ) → i < n → notified (w i) ≡ 1
notified_of-tally zero w h i l = absurd (omega (arith, l))
notified_of-tally (suc n) w h i l = elim (dec_lt i n) [
  | yes m ↦ notified_of-tally n w (ground (arith, tally-le n w)) i m
  | no m ↦ ground (arith, tally-le n w)
]

module _ {nr : ℕ} {s : Sys} (v : Inv nr s) where
  open v use {shared, local}

  in_range : (i : ℕ) → s.worker i ≢ absent → i < nr
  in_range i h = elim (dec_lt i nr) [
    | yes l ↦ l
    | no l ↦ absurd (h (ground (arith, shared, local i)))
  ]

  changed :
      (i : ℕ) (p : WorkerPc)
      → s.worker i ≢ absent
      → tally nr s.worker + notified p ≡ tally nr (assign s.worker i p) + notified (s.worker i)
  changed i p h = tally-change nr i s.worker p (in_range i h)

  not_full : (i : ℕ) → s.worker i ≡ ready → tally nr s.worker ≢ nr
  not_full i e h = ground (arith, notified_of-tally nr s.worker h i (in_range i (λ x. cc)))

  Step-Inv : {t : Sys} → Step nr s t → Inv nr t
  Step-Inv (creates k e l) = record {
    shared = ground (arith, shared, local k, tally-change nr k s.worker setting_up l);
    local = λ j. ground (arith, shared, local k, local j);
  }
  Step-Inv (created_all e) = record {
    shared = ground (arith, shared);
    local = λ j. ground (arith, shared, local j);
  }
  Step-Inv (tests e) = record {
    shared = ground (arith, shared, tally-le nr s.worker);
    local = λ j. ground (arith, shared, local j);
  }
  Step-Inv (spurious e) = record {
    shared = ground (arith, shared);
    local = λ j. ground (arith, shared, local j);
  }
  Step-Inv (releases e) = record {
    shared = ground (arith, shared);
    local = λ j. ground (arith, shared, local j);
  }
  Step-Inv (sets_up i e) = record {
    shared = ground (arith, shared, local i, changed i ready (λ x. cc));
    local = λ j. ground (arith, shared, local i, local j);
  }
  Step-Inv (notifies i e) = record {
    shared = ground (arith, shared, local i, changed i at_gate (λ x. cc), not_full i e);
    local = λ j. ground (arith, shared, local i, local j);
  }
  Step-Inv (enters i e f) = record {
    shared = ground (arith, shared, local i, changed i inside (λ x. cc));
    local = λ j. ground (arith, shared, local i, local j);
  }
  Step-Inv (leaves i e) = record {
    shared = ground (arith, shared, local i, changed i running (λ x. cc));
    local = λ j. ground (arith, shared, local i, local j);
  }

init-Inv : (nr : ℕ) → Inv nr init
init-Inv nr = record { shared = ground (arith, sum-zero nr); local = λ j. ground arith }

pub Reach-Inv : {nr : ℕ} {s : Sys} → Reach nr s → Inv nr s
Reach-Inv {nr} start = init-Inv nr
Reach-Inv (later r st) = Step-Inv (Reach-Inv r) st

-- In every state that the start of a server can reach, a worker is past `worker_hang_lock` only when
-- `init_threads` has given it up, every worker has then finished its set-up and notified the main
-- thread, each once; and no two workers have that lock at once.
pub running_after_setup :
    {nr : ℕ} {s : Sys} (i j : ℕ)
    → Reach nr s
    → past_gate (s.worker i) ≡ true
    → (s.main ≡ returned)
      × (s.init_count ≡ nr)
      × (j < nr → notified (s.worker j) ≡ 1)
      × (s.worker i ≡ inside → s.worker j ≡ inside → i ≡ j)
running_after_setup {nr} {s} i j r e = (
  back,
  full,
  λ l. notified_of-tally nr s.worker (omega (arith, full, v.shared.counted)) j l,
  λ h k. same ((v.local i).holds h) ((v.local j).holds k),
)
  where
    v : Inv nr s
    v = Reach-Inv r

    back : s.main ≡ returned
    back = (v.local i).past_returned e

    full : s.init_count ≡ nr
    full = v.shared.all_in (ap past_wait back)

    same : s.gate ≡ by_worker i → s.gate ≡ by_worker j → i ≡ j
    same h k = cc
