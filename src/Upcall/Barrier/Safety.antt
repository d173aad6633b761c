-- ===== src/Upcall/Barrier/Safety.antt =====
-- What holds in every state of the start-up: no worker runs early, and no wake-up is lost.
use upcalls.Prelude.{ℕ, suc, ◌+◌, ◌≤◌, ◌<◌, ◌≡◌, ◌≢◌, refl, sym, ◌∙◌, ap, Bool, true, false, arith}
use native.Mathlib.Decide.{dec_lt}
use upcalls.Upcall.Barrier.{
  WorkerPc, absent, spawned, ready, blocked, woken, looping, MainPc, spawning, testing,
  main_blocked, returned, gone, Sys, update, broadcast, test_go, arrive, test_count, workers_go,
  Step, create, created_all, set_up, arrives, tests_go, spurious, tests_count, main_spurious,
  calls_go, init, Reach, start, later,
}
use upcalls.Upcall.Barrier.Count.{
  arrived, tally, tally-update, tally-le, arrived_of-tally, missing_of-tally, tally_congr,
  tally-absent,
}

-- After the return of `upcall_init`.
abbrev pub past_init : MainPc → Bool
past_init returned = true
past_init gone = true
past_init _ = false

pub record Inv (nr : ℕ) (s : Sys) : Type 0 where
  pub counted : s.init_count ≡ tally nr s.worker
  pub main_waits : s.main ≡ main_blocked → s.init_count < nr
  pub all_in : past_init s.main ≡ true → s.init_count ≡ nr
  pub go_gone : s.go ≡ true → s.main ≡ gone
  pub looping_go : (i : ℕ) → s.worker i ≡ looping → s.go ≡ true
  pub none_lost : s.go ≡ true → (i : ℕ) → s.worker i ≢ blocked
  pub fresh : (k : ℕ) → s.main ≡ spawning k → (i : ℕ) → k ≤ i → s.worker i ≡ absent
  pub inside : (i : ℕ) → nr ≤ i → s.worker i ≡ absent

inside_of : {nr : ℕ} {s : Sys} → Inv nr s → (i : ℕ) → s.worker i ≢ absent → i < nr
inside_of {nr} inv i here = elim (dec_lt i nr) [
  | yes lt ↦ lt
  | no out ↦ absurd (here (inv.inside i (omega arith)))
]

module _ {nr : ℕ} {s : Sys} (inv : Inv nr s) where
  open inv use {counted, main_waits, all_in, go_gone, looping_go, none_lost, fresh, inside}

  -- A move of a worker that does not change what it counts.
  quiet-Inv :
      (i : ℕ) (p : WorkerPc)
      → s.worker i ≢ absent
      → arrived p ≡ arrived (s.worker i)
      → (p ≡ looping → s.go ≡ true)
      → (s.go ≡ true → p ≢ blocked)
      → Inv nr (record s { worker = update s.worker i p })
  quiet-Inv i p here same run wait = record {
    counted = omega (arith, counted, same, tally-update nr s.worker i p (inside_of inv i here));
    main_waits = main_waits;
    all_in = all_in;
    go_gone = go_gone;
    looping_go = λ j h. ground (arith, looping_go j, run);
    none_lost = λ g j h. ground (arith, none_lost g j, wait g);
    fresh = λ k e j h. ground (arith, fresh k e j, here);
    inside = λ j h. ground (arith, inside j, here);
  }

  arrive-Inv : (i : ℕ) → s.worker i ≡ ready → Inv nr (arrive i s)
  arrive-Inv i e = record {
    counted = ground (arith, counted, up);
    main_waits = λ h. ground arith;
    all_in = λ h. ground (arith, all_in, full);
    go_gone = λ g. ground (arith, go_gone);
    looping_go = λ j h. ground (arith, looping_go j);
    none_lost = λ g j h. ground (arith, none_lost g j);
    fresh = λ k m j h. ground (arith, fresh k, fresh k (ground arith) j);
    inside = λ j h. ground (arith, inside j);
  }
    where
      lt : i < nr
      lt = inside_of inv i (λ x. cc)

      up :
          tally nr (update s.worker i (test_go s.go)) + arrived (s.worker i)
          ≡ tally nr s.worker + arrived (test_go s.go)
      up = tally-update nr s.worker i (test_go s.go) lt

      full : tally nr s.worker ≢ nr
      full h = ground (arith, arrived_of-tally nr s.worker i h lt)

  create-Inv :
      (k : ℕ)
      → s.main ≡ spawning k
      → k < nr
      → Inv nr (record s { main = spawning (suc k); worker = update s.worker k spawned })
  create-Inv k e lt = record {
    counted = ground (arith, counted, fresh k e k, tally-update nr s.worker k spawned lt);
    main_waits = λ h. cc;
    all_in = λ h. cc;
    go_gone = λ g. ground (arith, go_gone);
    looping_go = λ j h. ground (arith, looping_go j);
    none_lost = λ g j h. ground (arith, none_lost g j);
    fresh = λ m f j h. ground (arith, fresh k e j);
    inside = λ j h. ground (arith, inside j);
  }

  test_count-Inv : s.main ≡ testing → Inv nr (test_count nr s)
  test_count-Inv e = record {
    counted = counted;
    main_waits = λ h. ground arith;
    all_in = λ h. ground (arith, counted, tally-le nr s.worker);
    go_gone = λ g. ground (arith, go_gone);
    looping_go = looping_go;
    none_lost = none_lost;
    fresh = λ k m j h. ground arith;
    inside = inside;
  }

  workers_go-Inv : s.main ≡ returned → Inv nr (workers_go s)
  workers_go-Inv e = record {
    counted =
        counted ∙ tally_congr nr s.worker (λ i. broadcast (s.worker i)) (λ i. same (s.worker i));
    main_waits = λ h. cc;
    all_in = λ h. all_in (ap past_init e);
    go_gone = λ g. refl;
    looping_go = λ j h. refl;
    none_lost = λ g j. not_blocked (s.worker j);
    fresh = λ k m j h. cc;
    inside = λ j h. ap broadcast (inside j h);
  }
    where
      same : (p : WorkerPc) → arrived p ≡ arrived (broadcast p)
      same absent = refl
      same _ = refl

      not_blocked : (p : WorkerPc) → broadcast p ≢ blocked
      not_blocked absent = λ h. cc
      not_blocked _ = λ h. cc

  pub Step-Inv : {t : Sys} → Step nr s t → Inv nr t
  Step-Inv (create k e lt) = create-Inv k e lt
  Step-Inv (created_all e) = record {
    counted = counted;
    main_waits = λ h. cc;
    all_in = λ h. cc;
    go_gone = λ g. ground (arith, go_gone);
    looping_go = looping_go;
    none_lost = none_lost;
    fresh = λ k m j h. cc;
    inside = inside;
  }
  Step-Inv (set_up i e) = quiet-Inv i ready (λ x. cc) (ground arith) (λ x. cc) (λ g x. cc)
  Step-Inv (arrives i e) = arrive-Inv i e
  Step-Inv (tests_go i e) =
      quiet-Inv i (test_go s.go) (λ x. cc) (ground arith) (λ x. ground arith) (λ g x. ground arith)
  Step-Inv (spurious i e) = quiet-Inv i woken (λ x. cc) (ground arith) (λ x. cc) (λ g x. cc)
  Step-Inv (tests_count e) = test_count-Inv e
  Step-Inv (main_spurious e) = record {
    counted = counted;
    main_waits = λ h. cc;
    all_in = λ h. cc;
    go_gone = λ g. ground (arith, go_gone);
    looping_go = looping_go;
    none_lost = none_lost;
    fresh = λ k m j h. cc;
    inside = inside;
  }
  Step-Inv (calls_go e) = workers_go-Inv e

init-Inv : (nr : ℕ) → Inv nr init
init-Inv nr = record {
  counted = sym (tally-absent nr);
  main_waits = λ h. cc;
  all_in = λ h. cc;
  go_gone = λ g. cc;
  looping_go = λ j h. cc;
  none_lost = λ g j h. cc;
  fresh = λ k m j h. refl;
  inside = λ j h. refl;
}

pub Reach-Inv : {nr : ℕ} {s : Sys} → Reach nr s → Inv nr s
Reach-Inv {nr} start = init-Inv nr
Reach-Inv (later r st) = Step-Inv (Reach-Inv r) st

-- In every state that the start-up can reach, a worker is in the event loop only if
-- `upcall_workers_go` was called, and then every worker has finished `upcall_worker_setup` and
-- `g_setup_fn`.
pub looping_after_setup :
    {nr : ℕ} {s : Sys}
    → Reach nr s
    → (i : ℕ) → s.worker i ≡ looping
    → (s.main ≡ gone) × ((j : ℕ) → j < nr → arrived (s.worker j) ≡ 1)
looping_after_setup {nr} {s} r i e = (main_gone, λ j h. arrived_of-tally nr s.worker j full h)
  where
    open (Reach-Inv r) use {counted, all_in, go_gone, looping_go}

    main_gone : s.main ≡ gone
    main_gone = go_gone (looping_go i e)

    full : tally nr s.worker ≡ nr
    full = omega (arith, counted, all_in (ap past_init main_gone))

-- In every reachable state, `upcall_init` has returned only if all workers have finished their
-- set-up and counted themselves, each once.
pub returned_after_setup :
    {nr : ℕ} {s : Sys}
    → Reach nr s
    → past_init s.main ≡ true
    → (s.init_count ≡ nr) × ((j : ℕ) → j < nr → arrived (s.worker j) ≡ 1)
returned_after_setup {nr} {s} r e =
    (all_in e, λ j h. arrived_of-tally nr s.worker j (omega (arith, counted, all_in e)) h)
  where
    open (Reach-Inv r) use {counted, all_in}

-- No wake-up is lost, in every reachable state: if the main thread is blocked in `upcall_init`, some
-- worker has yet to count itself and signal; and once `g_go` is set, no worker is blocked.
pub no_lost_wakeup :
    {nr : ℕ} {s : Sys}
    → Reach nr s
    → (s.main ≡ main_blocked → (i : ℕ) × (i < nr) × (arrived (s.worker i) ≡ 0))
      × (s.go ≡ true → (i : ℕ) → s.worker i ≢ blocked)
no_lost_wakeup {nr} {s} r =
    (λ e. missing_of-tally nr s.worker (omega (arith, counted, main_waits e)), none_lost)
  where
    open (Reach-Inv r) use {counted, main_waits, none_lost}
