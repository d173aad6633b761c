-- ===== src/Setup/Endings.antt =====
-- How a program of Setup ends: with its value, or at a call that fails.
use upcalls.Prelude.{
  ℕ, zero, suc, ◌≡◌, ◌≢◌, refl, ap, true, false, List, [], ◌∷◌, ◌++◌, ℤ, pos, negsuc, is_neg,
  Outcome, done, exit, if-cases, arith,
}
use upcalls.Setup.{
  socket, bind, listen, setsockopt, Call, perf_event_open, epoll_create, epoll_ctl_add, getaddrinfo,
  ask_accept, failed, Program, return, call, run, after_call, calloc, init_cache, attr_init,
  attr_setdetachstate, eventfd, perf_id, perf_reset, perf_enable, queue_init, ask_event_read,
  not_zero, is_null,
}

-- The results by which the manual pages tell a failure, for the calls whose failure ends a set-up.
abbrev pub Fails : Call → ℤ → Type 0
Fails calloc z = z ≡ pos 0
Fails (init_cache what count) z = z ≡ pos 0
Fails attr_init z = z ≢ pos 0
Fails attr_setdetachstate z = z ≢ pos 0
Fails (eventfd nonblock) z = is_neg z ≡ true
Fails (getaddrinfo port) z = z ≢ pos 0
Fails (socket port nonblock) z = is_neg z ≡ true
Fails (setsockopt fd opt) z = z ≢ pos 0
Fails (bind fd port) z = z ≢ pos 0
Fails (listen fd) z = z ≢ pos 0
Fails epoll_create z = is_neg z ≡ true
Fails (epoll_ctl_add epoll_fd fd) z = z ≢ pos 0
Fails (perf_event_open i group_fd) z = is_neg z ≡ true
Fails queue_init z = is_neg z ≡ true
Fails _ z = ⊥

zero_or_not : (z : ℤ) → not_zero z ≡ true → z ≢ pos 0
zero_or_not z h e = ground (arith, h, ap not_zero e)

null_or_not : (z : ℤ) → is_null z ≡ true → z ≡ pos 0
null_or_not (pos zero) h = refl
null_or_not (pos (suc n)) h = ground (arith, h)
null_or_not (negsuc n) h = ground (arith, h)

failed-Fails : (c : Call) (z : ℤ) → failed c z ≡ true → Fails c z
failed-Fails calloc z h = null_or_not z h
failed-Fails (init_cache what count) z h = null_or_not z h
failed-Fails attr_init z h = zero_or_not z h
failed-Fails attr_setdetachstate z h = zero_or_not z h
failed-Fails (eventfd nonblock) z h = h
failed-Fails (getaddrinfo port) z h = zero_or_not z h
failed-Fails (socket port nonblock) z h = h
failed-Fails (setsockopt fd opt) z h = zero_or_not z h
failed-Fails (bind fd port) z h = zero_or_not z h
failed-Fails (listen fd) z h = zero_or_not z h
failed-Fails epoll_create z h = h
failed-Fails (epoll_ctl_add epoll_fd fd) z h = zero_or_not z h
failed-Fails (perf_event_open i group_fd) z h = h
failed-Fails queue_init z h = h
failed-Fails (perf_id fd i) z h = ground (arith, h)
failed-Fails (perf_reset fd) z h = ground (arith, h)
failed-Fails (perf_enable fd) z h = ground (arith, h)
failed-Fails (ask_accept fd) z h = ground (arith, h)
failed-Fails (ask_event_read fd) z h = ground (arith, h)

pub is_zero : (z : ℤ) → not_zero z ≡ false → z ≡ pos 0
is_zero (pos zero) h = refl
is_zero (pos (suc n)) h = ground (arith, h)
is_zero (negsuc n) h = ground (arith, h)

passed : (c : Call) (z : ℤ) → failed c z ≡ false → ¬ Fails c z
passed calloc z h e = ground (arith, h, ap is_null e)
passed (init_cache what count) z h e = ground (arith, h, ap is_null e)
passed attr_init z h e = e (is_zero z h)
passed attr_setdetachstate z h e = e (is_zero z h)
passed (getaddrinfo port) z h e = e (is_zero z h)
passed (setsockopt fd opt) z h e = e (is_zero z h)
passed (bind fd port) z h e = e (is_zero z h)
passed (listen fd) z h e = e (is_zero z h)
passed (epoll_ctl_add epoll_fd fd) z h e = e (is_zero z h)
passed (eventfd nonblock) z h e = ground (arith, h, e)
passed (socket port nonblock) z h e = ground (arith, h, e)
passed epoll_create z h e = ground (arith, h, e)
passed (perf_event_open i group_fd) z h e = ground (arith, h, e)
passed queue_init z h e = ground (arith, h, e)
passed (perf_id fd i) z h e = e
passed (perf_reset fd) z h e = e
passed (perf_enable fd) z h e = e
passed (ask_accept fd) z h e = e
passed (ask_event_read fd) z h e = e

-- No call failed.
abbrev pub NoneFails : (Call → ℤ) → List Call → Type 0
NoneFails answer [] = Unit
NoneFails answer (c ∷ cs) = (¬ Fails c (answer c)) × NoneFails answer cs

-- No test after a call found a failure.
abbrev pub AllSucceed : (Call → ℤ) → List Call → Type 0
AllSucceed answer [] = Unit
AllSucceed answer (c ∷ cs) = (failed c (answer c) ≡ false) × AllSucceed answer cs

-- How a program ends: no call failed, and `P` holds of its calls and its value; or its last call fails,
-- by a result that ends the set-up, and no other did.
pub data Ends {A : Type 0} (answer : Call → ℤ) (status : ℕ) (P : List Call → A → Type 0)
    : List Call × Outcome A → Type 0 where
  ready :
      (cs : List Call) (a : A) → NoneFails answer cs → P cs a → Ends answer status P (cs, done a)
  stops :
      (cs : List Call) (c : Call)
      → NoneFails answer cs
      → Fails c (answer c)
      → Ends answer status P (cs ++ c ∷ [], exit status)

-- The calls and the value of a program if no call fails.
abbrev pub all_calls : {A : Type 0} → (Call → ℤ) → Program A → List Call
all_calls answer (return a) = []
all_calls answer (call c k) = c ∷ all_calls answer (k (answer c))

abbrev pub value : {A : Type 0} → (Call → ℤ) → Program A → A
value answer (return a) = a
value answer (call c k) = value answer (k (answer c))

after-Ends :
    {A : Type 0} {answer : Call → ℤ} {status : ℕ} {P : List Call → A → Type 0}
    {r : List Call × Outcome A} (c : Call)
    → ¬ Fails c (answer c)
    → Ends answer status (λ cs a. P (c ∷ cs) a) r
    → Ends answer status P (after_call c r)
after-Ends c n (ready cs a all p) = ready (c ∷ cs) a (n, all) p
after-Ends c n (stops cs d all f) = stops (c ∷ cs) d (n, all) f

pub run-Ends :
    {A : Type 0} (answer : Call → ℤ) (status : ℕ) (P : List Call → A → Type 0) (p : Program A)
    → (AllSucceed answer (all_calls answer p) → P (all_calls answer p) (value answer p))
    → Ends answer status P (run answer status p)
unfolding run
run-Ends answer status P (return a) h = ready [] a tt (h tt)
run-Ends answer status P (call c k) h =
    if-cases (Ends answer status P) (failed c (answer c))
      (λ f. stops [] c tt (failed-Fails c (answer c) f))
      (λ s.
        after-Ends c (passed c (answer c) s)
          (run-Ends answer status (λ cs a. P (c ∷ cs) a) (k (answer c)) λ all. h (s, all)))
