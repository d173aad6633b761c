-- ===== src/Upcall/Init/Result.antt =====
-- What `upcall_init` returns, and what it has done.
use upcalls.Prelude.{
  ℕ, zero, suc, ◌+◌, ◌<◌, ◌≡◌, ◌≢◌, refl, sym, ◌∙◌, ap, subst, true, false, arith, ℤ, pos, negsuc,
  ◌==◌, if-cases, ==→eq, ne_of_==,
}
use native.Mathlib.Decide.{dec_lt}
use upcalls.Upcall.Init.{
  Os, Args, Library, neg, configure, create_worker, spawn, create_workers, with_device, upcall_init,
}

module _ (os : Os) (a : Args) (l : Library) where
  -- The workers below `n` are created.
  abbrev pub AllCreated : ℕ → Type 0
  AllCreated n = (j : ℕ) → j < n → create_worker os j ≡ 0

  -- A failure is an error code, negated. Workers that were created before it stay.
  pub data Initialised : ℤ × Library → Type 0 where
    no_device :
        (k : ℕ)
        → os.upcall_create ≡ negsuc k
        → Initialised (neg os.errno, record l { upfd = os.upcall_create })
    no_attr :
        (fd : ℕ)
        → os.upcall_create ≡ pos fd
        → os.attr_init ≢ 0
        → Initialised (neg os.attr_init, configure os a l)
    no_worker :
        (fd i : ℕ)
        → os.upcall_create ≡ pos fd
        → i < os.nprocs
        → AllCreated i
        → create_worker os i ≢ 0
        → Initialised (
          neg (create_worker os i),
          record (configure os a l) { workers = l.workers + i; attr = false },
        )
    success :
        (fd : ℕ)
        → os.upcall_create ≡ pos fd
        → AllCreated os.nprocs
        → Initialised
            (pos 0, record (configure os a l) { workers = l.workers + os.nprocs; attr = false })

  -- The state of the loop after `i` workers.
  abbrev after_workers : ℕ → Library
  after_workers i = record (configure os a l) { workers = l.workers + i; attr = true }

  one_more : (i : ℕ) → AllCreated i → create_worker os i ≡ 0 → AllCreated (suc i)
  one_more i h e j m = elim (dec_lt j i) [
    | yes k ↦ h j k
    | no k ↦ ap (create_worker os) (last k) ∙ e
  ]
    where
      last : ¬ (j < i) → j ≡ i
      last k = omega (arith, m, k)

  spawn-Initialised :
      (fd left i n : ℕ)
      → os.upcall_create ≡ pos fd
      → n ≡ l.workers + i
      → i + left ≡ os.nprocs
      → AllCreated i
      → Initialised (spawn os left i (record (configure os a l) { workers = n; attr = true }))
  unfolding spawn
  spawn-Initialised fd zero i n o e s h =
      subst (λ k. Initialised (pos 0, record (configure os a l) { workers = k; attr = false }))
        (sym (e ∙ ap (λ j. l.workers + j) same)) (success fd o (subst AllCreated same h))
    where
      same : i ≡ os.nprocs
      same = omega (arith, s)
  spawn-Initialised fd (suc left) i n o e s h =
      if-cases Initialised (create_worker os i == 0)
        (λ b.
          spawn-Initialised fd left (suc i) (n + 1) o (omega (arith, e)) (omega (arith, s))
            (one_more i h (==→eq _ _ b)))
        (λ b.
          subst
            (λ k.
              Initialised
                (neg (create_worker os i), record (configure os a l) { workers = k; attr = false }))
            (sym e) (no_worker fd i o (omega (arith, s)) h (ne_of_== _ _ b)))

  create_workers-Initialised :
      (fd : ℕ)
      → os.upcall_create ≡ pos fd
      → (configure os a l).workers ≡ l.workers
      → Initialised (create_workers os (configure os a l))
  create_workers-Initialised fd o w =
      if-cases Initialised (os.attr_init == 0)
        (λ b.
          spawn-Initialised fd os.nprocs 0 (configure os a l).workers o (omega (arith, w))
            (omega arith) (λ j m. absurd (omega (arith, m))))
        (λ b. no_attr fd o (ne_of_== _ _ b))

  configure-workers : (configure os a l).workers ≡ l.workers
  unfolding configure
  configure-workers = ground arith

  with_device-Initialised : (fd : ℤ) → os.upcall_create ≡ fd → Initialised (with_device os a fd l)
  with_device-Initialised (negsuc k) o = no_device k o
  with_device-Initialised (pos fd) o = create_workers-Initialised fd o configure-workers

-- If the device, the attributes and all workers could be made, one for each CPU, `upcall_init` returns
-- 0. Otherwise it returns the negated code of the first call that failed; without the device
-- nothing else is set; else the settings are made, the workers of the CPUs before the failure
-- are left running, and the attributes are destroyed if they were made.
pub upcall_init-Initialised :
    (os : Os) (a : Args) (l : Library) → Initialised os a l (upcall_init os a l)
unfolding upcall_init
upcall_init-Initialised os a l = with_device-Initialised os a l os.upcall_create refl
