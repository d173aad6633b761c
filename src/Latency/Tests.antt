-- ===== src/Latency/Tests.antt =====
-- One turn of both threads.
use upcalls.Prelude.{ℕ, ◌+◌, ◌*◌, suc, ◌≤◌, ◌≡◌, refl, ◌⊎◌, [], ◌∷◌, arith}
use upcalls.Latency.{
  Sys, Step, sleeper_reads, sleeper_adds_read, sleeper_adds_write, sleeper_writes, waker_adds_write,
  waker_writes, waker_reads, waker_adds_read, Reach, start, later, latencies, stamped,
}
use upcalls.Latency.Order.{AreSynchronised, AreExact, latencies-AreExact, in_turn}

record Run : Type 0 where
  last : Sys
  reach : Reach 1 100 last

abbrev half : Run
half = record {
  last = _;
  reach =
      later (later (later start (waker_adds_write (omega arith) refl)) (waker_writes refl))
        (sleeper_reads (omega arith) refl (omega arith));
}

abbrev whole : Run
whole = record {
  last = _;
  reach =
      later
        (later
          (later (later (later half.reach (sleeper_adds_read refl)) (sleeper_adds_write refl))
            (sleeper_writes refl))
          (waker_reads refl (omega arith)))
        (waker_adds_read refl);
}

in_turn_example :
    (half.last.woke ≤ half.last.slept)
    × (half.last.slept ≤ suc half.last.woke)
    × (((half.last.slept ≡ 1) × (half.last.woke ≡ 1)) ⊎ ((t : Sys) × Step 1 half.last t))
in_turn_example = in_turn half.reach

-- Counters that go twice as fast as the instants, the waker's one ahead.
abbrev slp_tsc : ℕ → ℕ
slp_tsc t = 2 * t

abbrev wke_tsc : ℕ → ℕ
wke_tsc t = 2 * t + 1

tscs-AreSynchronised : AreSynchronised slp_tsc wke_tsc
tscs-AreSynchronised = record {
  sleeper_later = λ t u l. omega (arith, l);
  waker_later = λ t u l. omega (arith, l);
}

latencies-AreExact_example :
    AreExact
      (stamped slp_tsc whole.last.slp_log)
      (stamped wke_tsc whole.last.wke_log)
      (latencies (stamped slp_tsc whole.last.slp_log) (stamped wke_tsc whole.last.wke_log))
latencies-AreExact_example =
    latencies-AreExact tscs-AreSynchronised whole.reach refl refl (omega arith, (omega arith, tt))
      (omega arith, (omega arith, tt))

latencies_run : latencies whole.last.slp_log whole.last.wke_log ≡ 3 ∷ 3 ∷ []
unfolding latencies
latencies_run = refl
