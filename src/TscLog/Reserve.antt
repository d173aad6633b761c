-- ===== src/TscLog/Reserve.antt =====
-- event-tester/tsc_logger.h: `tsc_buffer_reserve` when several threads call it on one log. Each loads
-- `*cur`, and its compare-and-swap takes effect only if `*cur` is still what was loaded.
use upcalls.Prelude.{
  ℕ, ◌+◌, ◌≤◌, ◌<◌, ◌≡◌, ◌≢◌, ◌^◌, refl, sym, arith, u64, u64-id, Option, none, some, List, [], ◌∷◌,
  ◌==◌, if◌then◌else◌,
}

-- `*cur`, what each thread has loaded in `old`, and the regions handed out, newest first.
pub record Shared : Type 0 where
  pub cur : ℕ
  pub loaded : ℕ → Option ℕ
  pub regions : List (ℕ × ℕ)

abbrev pub remember : (ℕ → Option ℕ) → ℕ → Option ℕ → ℕ → Option ℕ
remember f i o j = if i == j then o else f j

-- A step of one thread. `end_at` is `end`; a request of `bytes`, a `uint32_t`, that does not fit
-- returns NULL. The sum of the address and `bytes` is a word.
pub data Move (end_at : ℕ) (s : Shared) : Shared → Type 0 where
  load : (i : ℕ) → Move end_at s (record s { loaded = remember s.loaded i (some s.cur) })
  swap :
      (i old bytes : ℕ)
      → s.loaded i ≡ some old
      → bytes < 2 ^ 32
      → u64 (old + bytes) ≤ end_at
      → s.cur ≡ old
      → Move end_at s (record {
        cur = u64 (old + bytes);
        loaded = remember s.loaded i none;
        regions = (old, bytes) ∷ s.regions;
      })
  swap_fails :
      (i old : ℕ)
      → s.loaded i ≡ some old
      → s.cur ≢ old
      → Move end_at s (record s { loaded = remember s.loaded i none })
  no_room :
      (i old bytes : ℕ)
      → s.loaded i ≡ some old
      → bytes < 2 ^ 32
      → end_at < u64 (old + bytes)
      → Move end_at s (record s { loaded = remember s.loaded i none })

abbrev pub empty_buffer : ℕ → Shared
empty_buffer start = record { cur = start; loaded = λ _. none; regions = [] }

pub data Runs (start end_at : ℕ) : Shared → Type 0 where
  begin : Runs start end_at (empty_buffer start)
  next : {s t : Shared} → Runs start end_at s → Move end_at s t → Runs start end_at t

-- The regions lie end to end between two addresses: none overlaps another, and there is no gap.
abbrev pub Tiles : ℕ → List (ℕ × ℕ) → ℕ → Type 0
Tiles start [] top = start ≡ top
Tiles start ((at, bytes) ∷ rs) top = (at + bytes ≡ top) × Tiles start rs at

-- Take a buffer that ends at least 2^32 bytes below the end of the address space. However threads
-- interleave, and whatever they ask for, the regions that `tsc_buffer_reserve` has handed out lie end
-- to end from the start of the buffer to `*cur`, which stays inside the buffer.
pub reserved-Tiles :
    {start end_at : ℕ} {s : Shared}
    → start ≤ end_at
    → end_at + 2 ^ 32 ≤ 2 ^ 64
    → Runs start end_at s
    → Tiles start s.regions s.cur × (s.cur ≤ end_at)
reserved-Tiles h b begin = (refl, h)
reserved-Tiles h b (next r (load i)) = reserved-Tiles h b r
reserved-Tiles h b (next {s} r (swap i old bytes e small fit same)) =
    let (tiles, inside) = reserved-Tiles h b r in
    ((sym (u64-id (old + bytes) (omega (arith, inside, same, b, small))), rw⁻¹ same tiles), fit)
reserved-Tiles h b (next r (swap_fails i old e f)) = reserved-Tiles h b r
reserved-Tiles h b (next r (no_room i old bytes e small f)) = reserved-Tiles h b r
