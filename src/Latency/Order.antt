-- ===== src/Latency/Order.antt =====
-- The order of the two threads' turns, and the pairs in their logs.
use upcalls.Prelude.{
  ℕ, suc, ◌+◌, ◌^◌, ◌≤◌, ◌<◌, ◌≡◌, refl, ◌⊎◌, inl, inr, List, [], ◌∷◌, arith, minus64-id,
}
use native.Mathlib.Decide.{dec_lt}
use upcalls.Latency.{
  read_mark, write_mark, Stamp, Sys, Step, sleeper_reads, sleeper_adds_read, sleeper_adds_write,
  sleeper_writes, waker_adds_write, waker_writes, waker_reads, waker_adds_read, Reach, stamped,
  latencies,
}
use upcalls.Latency.Turns.{
  Paired, none_yet, woke_sleeper, woke_waker, Phase, asleep, wakes, woken, awake, noted, answers,
  answered, back, Reach-Phase,
}

-- In every reachable state, either both threads have done all their turns, or one of them can take a
-- step: they never wait for each other for ever. The sleeper is at most one turn ahead of the waker,
-- and never behind it.
pub in_turn :
    {count now : ℕ} {s : Sys}
    → Reach count now s
    → (s.woke ≤ s.slept)
      × (s.slept ≤ suc s.woke)
      × (((s.slept ≡ count) × (s.woke ≡ count)) ⊎ ((t : Sys) × Step count s t))
in_turn {count} r = turn (Reach-Phase r)
  where
    turn :
        {s : Sys}
        → Phase count s
        → (s.woke ≤ s.slept)
          × (s.slept ≤ suc s.woke)
          × (((s.slept ≡ count) × (s.woke ≡ count)) ⊎ ((t : Sys) × Step count s t))
    turn (asleep {k} l p) = (
      omega arith,
      omega arith,
      elim (dec_lt k count) [
        | yes h ↦ inr (_, waker_adds_write h refl)
        | no h ↦ inl (omega arith, omega arith)
      ],
    )
    turn (wakes l p o) = (omega arith, omega arith, inr (_, waker_writes refl))
    turn (woken l p o) = (omega arith, omega arith, inr (_, sleeper_reads l refl (omega arith)))
    turn (awake l p o) = (omega arith, omega arith, inr (_, sleeper_adds_read refl))
    turn (noted l p) = (omega arith, omega arith, inr (_, sleeper_adds_write refl))
    turn (answers l p o) = (omega arith, omega arith, inr (_, sleeper_writes refl))
    turn (answered l p o) = (omega arith, omega arith, inr (_, waker_reads refl (omega arith)))
    turn (back l p o) = (omega arith, omega arith, inr (_, waker_adds_read refl))

both_done :
    {count : ℕ} {s : Sys}
    → Phase count s
    → s.slept ≡ count
    → s.woke ≡ count
    → Paired s.slp_log s.wke_log
both_done (asleep l p) e f = p
both_done (wakes l p o) e f = absurd (omega arith)
both_done (woken l p o) e f = absurd (omega arith)
both_done (awake l p o) e f = absurd (omega arith)
both_done (noted l p) e f = p
both_done (answers l p o) e f = absurd (omega arith)
both_done (answered l p o) e f = absurd (omega arith)
both_done (back l p o) e f = absurd (omega arith)

-- When both threads are done, their logs pair up entry by entry, and in each pair the entry of the
-- thread that was woken is later than that of the thread that woke it.
pub logs-Paired :
    {count now : ℕ} {s : Sys}
    → Reach count now s
    → s.slept ≡ count
    → s.woke ≡ count
    → Paired s.slp_log s.wke_log
logs-Paired r = both_done (Reach-Phase r)

-- The times in a log are words.
abbrev pub AreWords : List Stamp → Type 0
AreWords [] = Unit {0}
AreWords ((m, t) ∷ ss) = (t < 2 ^ 64) × AreWords ss

-- Rows that are the true, positive differences: later entry less earlier one.
abbrev pub AreExact : List Stamp → List Stamp → List ℕ → Type 0
AreExact ((read_mark, s) ∷ ss) ((m, w) ∷ ws) (l ∷ ls) = (l + w ≡ s) × (0 < l) × AreExact ss ws ls
AreExact ((write_mark, s) ∷ ss) ((m, w) ∷ ws) (l ∷ ls) = (l + s ≡ w) × (0 < l) × AreExact ss ws ls
AreExact [] [] [] = Unit {0}
AreExact _ _ _ = 0 < 0

-- The time-stamp counters of the two CPUs are synchronised: what one shows is less than what the
-- other shows at any later instant.
pub record AreSynchronised (slp_tsc wke_tsc : ℕ → ℕ) : Type 0 where
  pub sleeper_later : (t u : ℕ) → t < u → wke_tsc t < slp_tsc u
  pub waker_later : (t u : ℕ) → t < u → slp_tsc t < wke_tsc u

module _ {slp_tsc wke_tsc : ℕ → ℕ} (sync : AreSynchronised slp_tsc wke_tsc) where
  Paired-AreExact :
      {ss ws : List Stamp}
      → Paired ss ws
      → AreWords (stamped slp_tsc ss)
      → AreWords (stamped wke_tsc ws)
      → AreExact
          (stamped slp_tsc ss)
          (stamped wke_tsc ws)
          (latencies (stamped slp_tsc ss) (stamped wke_tsc ws))
  unfolding latencies
  Paired-AreExact none_yet a b = tt
  Paired-AreExact (woke_sleeper {s} {w} h p) (c, a) (d, b) =
      let later = sync.sleeper_later w s h in
      let exact = minus64-id (slp_tsc s) (wke_tsc w) (omega (arith, later)) c in
      (omega (arith, later, exact), omega (arith, later, exact), Paired-AreExact p a b)
  Paired-AreExact (woke_waker {s} {w} h p) (c, a) (d, b) =
      let later = sync.waker_later s w h in
      let exact = minus64-id (wke_tsc w) (slp_tsc s) (omega (arith, later)) d in
      (omega (arith, later, exact), omega (arith, later, exact), Paired-AreExact p a b)

  -- Take two threads whose CPUs' time-stamp counters are synchronised: what one shows is less than
  -- what the other shows at any later instant. When both threads are done and all times are below
  -- 2^64, every row of `write_times` is the difference of the two counters, from the entry of the
  -- thread that woke to that of the thread that was woken: it is positive, and no subtraction wraps.
  -- No row is missing.
  pub latencies-AreExact :
      {count now : ℕ} {s : Sys}
      → Reach count now s
      → s.slept ≡ count
      → s.woke ≡ count
      → AreWords (stamped slp_tsc s.slp_log)
      → AreWords (stamped wke_tsc s.wke_log)
      → AreExact
          (stamped slp_tsc s.slp_log)
          (stamped wke_tsc s.wke_log)
          (latencies (stamped slp_tsc s.slp_log) (stamped wke_tsc s.wke_log))
  latencies-AreExact r e f a b = Paired-AreExact (logs-Paired r e f) a b
