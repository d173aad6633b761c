-- ===== src/TscLog/Tests.antt =====
-- A log with room for two entries, and two threads that reserve at the same time.
use upcalls.Prelude.{◌<◌, ◌≤◌, ◌≡◌, refl, true, false, some, List, [], ◌∷◌, arith, take, length}
use upcalls.TscLog.{Entry, tsclog_all, empty_log, dump}
use upcalls.TscLog.Dump.{dump-tsclog_all}
use upcalls.TscLog.Reserve.{
  Shared, load, swap, swap_fails, Runs, begin, next, Tiles, reserved-Tiles,
}

abbrev entry : Entry
entry = record { cpu = 1; tid = 100; tsc = 5; values = 1 ∷ 2 ∷ 3 ∷ 4 ∷ [] }

abbrev later_entry : Entry
later_entry = record entry { tsc = 6 }

abbrev logged : List Entry
logged = entry ∷ later_entry ∷ entry ∷ []

dump-tsclog_all_example :
    (dump 2 64 (tsclog_all logged (empty_log 64 2 (λ _. entry))) ≡ some (take 2 logged))
    × (2 < length logged → (tsclog_all logged (empty_log 64 2 (λ _. entry))).overflow ≡ true)
    × (length logged ≤ 2 → (tsclog_all logged (empty_log 64 2 (λ _. entry))).overflow ≡ false)
dump-tsclog_all_example = dump-tsclog_all 64 2 (λ _. entry) logged (omega arith)

record Race : Type 0 where
  last : Shared
  runs : Runs 64 1000 last

-- Both load; one swaps, and the other's swap fails; it loads again and swaps.
abbrev race : Race
race = record {
  last = _;
  runs =
      next
        (next
          (next
            (next (next (next begin (load 0)) (load 1))
              (swap 0 64 48 refl (omega arith) (omega arith) refl))
            (swap_fails 1 64 refl (λ e. absurd (omega (arith, e)))))
          (load 1))
        (swap 1 112 48 refl (omega arith) (omega arith) refl);
}

reserved-Tiles_example : Tiles 64 race.last.regions race.last.cur × (race.last.cur ≤ 1000)
reserved-Tiles_example = reserved-Tiles (omega arith) (omega arith) race.runs
