-- ===== src/Client/Options.antt =====
-- event-tester/tcp_client.c: the checks of `main` on its options, and the sizes that it computes.
use upcalls.Prelude.{
  ℕ, ◌+◌, ◌*◌, ◌/◌, ◌^◌, ◌≤◌, ◌<◌, ◌≡◌, ◌⊎◌, inl, inr, Bool, true, false, ◌||◌, arith, ℤ, pos,
  negsuc, Outcome, done, exit, ltb, ltb→lt, ltb→le, ◌==◌, ==→eq, Bool-cases, if◌then◌else◌, u64,
  u64-id,
}
use upcalls.TscLog.{entry_size}

-- The options after `getopt_long`; `nr_threads` is 0 unless it was given. `operands` is
-- `argc - optind`.
pub record Options : Type 0 where
  pub port : ℤ
  pub stats : ℤ
  pub msg_size : ℕ
  pub clients_per_thread : ℕ
  pub batch_size : ℕ
  pub transaction_count : ℕ
  pub nr_threads : ℕ
  pub operands : ℕ

pub record Sizes : Type 0 where
  pub threads : ℕ
  pub max_events : ℕ
  pub log_size : ℕ

-- `port <= 0 || port > 65536`
abbrev pub bad_port : ℤ → Bool
bad_port (pos n) = (n == 0) || ltb 65536 n
bad_port (negsuc n) = true

-- `if (nr_threads == 0 || nr_threads > nr_cpus) nr_threads = nr_cpus;`
abbrev pub clamp_threads : (nr_cpus nr_threads : ℕ) → ℕ
clamp_threads cpus n = if (n == 0) || ltb cpus n then cpus else n

abbrev pub min_io : ℕ → ℕ
min_io msg_size = u64 (1 + msg_size / 1380)

-- The steps that compute `max_events`, each on words.
abbrev pub max_events_of : Options → ℕ
max_events_of o =
    let sends = u64 (4 * min_io o.msg_size * o.transaction_count) in
    let with_connects = u64 (sends + 2 * (1 + o.transaction_count / o.batch_size)) in
    u64 (u64 (with_connects * o.clients_per_thread) * 8)

-- What the process exits with when it divides by 0.
abbrev pub sigfpe : ℕ
sigfpe = 136

abbrev pub compute_sizes : ℕ → Options → Outcome Sizes
compute_sizes cpus o =
    if o.batch_size == 0
    then exit sigfpe
    else done (record {
      threads = clamp_threads cpus o.nr_threads;
      max_events = max_events_of o;
      log_size = u64 (entry_size 4 * max_events_of o);
    })

-- `main` from the checks of the options to `entry_size`.
unfoldable pub prepare : (nr_cpus : ℕ) → Options → Outcome Sizes
prepare cpus o =
    if bad_port o.port
    then exit 1
    else if bad_port o.stats
    then exit 1
    else if ltb o.operands 2
    then exit 1
    else compute_sizes cpus o

-- What the log of a thread must hold if every message comes in `min_io` parts.
abbrev pub planned : Options → ℕ
planned o =
    (4 * (1 + o.msg_size / 1380) * o.transaction_count
      + 2 * (1 + o.transaction_count / o.batch_size))
    * o.clients_per_thread

abbrev pub IsPort : ℤ → Type 0
IsPort (pos n) = (0 < n) × (n ≤ 65536)
IsPort (negsuc n) = n < 0

-- How the checks end.
pub data Prepared (cpus : ℕ) (o : Options) : Outcome Sizes → Type 0 where
  prepared :
      (z : Sizes)
      → IsPort o.port
      → IsPort o.stats
      → 2 ≤ o.operands
      → 1 ≤ z.threads
      → z.threads ≤ cpus
      → z.max_events ≡ 8 * planned o
      → z.log_size ≡ 48 * z.max_events
      → Prepared cpus o (done z)
  refused :
      bad_port o.port ≡ true ⊎ (bad_port o.stats ≡ true ⊎ (o.operands < 2))
      → Prepared cpus o (exit 1)
  divided_by_zero : o.batch_size ≡ 0 → Prepared cpus o (exit sigfpe)

bad_port-IsPort : (p : ℤ) → bad_port p ≡ false → IsPort p
bad_port-IsPort (pos n) h = ground arith
bad_port-IsPort (negsuc n) h = ground arith

clamped : (cpus n : ℕ) → 1 ≤ cpus → (1 ≤ clamp_threads cpus n) × (clamp_threads cpus n ≤ cpus)
clamped cpus n h = ground arith

-- No step of the computation wraps if the whole log has a size below 2^64.
sizes_exact :
    (x c k : ℕ)
    → 1 ≤ k
    → 48 * (8 * ((x + c) * k)) < 2 ^ 64
    → u64 (u64 (u64 (u64 x + c) * k) * 8) ≡ 8 * ((x + c) * k)
sizes_exact x c k h l =
    rw
      (
        u64-id x (omega (arith, grows)),
        u64-id (x + c) (omega (arith, grows)),
        u64-id ((x + c) * k) (omega arith),
      )
      (omega (arith, u64-id ((x + c) * k * 8) (omega arith)))
  where
    grows : x + c ≤ (x + c) * k
    grows = grind arith

sizes-Prepared :
    (cpus : ℕ) (o : Options)
    → 1 ≤ cpus
    → 1 ≤ o.clients_per_thread
    → o.msg_size < 2 ^ 64
    → 48 * (8 * planned o) < 2 ^ 64
    → IsPort o.port
    → IsPort o.stats
    → 2 ≤ o.operands
    → Prepared cpus o (compute_sizes cpus o)
sizes-Prepared cpus o c k m l p q r = elim (Bool-cases (o.batch_size == 0)) [
  | inl e ↦ rw (e) (divided_by_zero (==→eq _ _ e))
  | inr e ↦ rw (e) (
      prepared _ p q r (clamped cpus o.nr_threads c).0 (clamped cpus o.nr_threads c).1 exact
        (omega (arith, u64-id (48 * max_events_of o) (omega (arith, exact)))))
]
  where
    exact : max_events_of o ≡ 8 * planned o
    exact = rw (u64-id (1 + o.msg_size / 1380) (omega arith)) (
        sizes_exact (4 * (1 + o.msg_size / 1380) * o.transaction_count)
          (2 * (1 + o.transaction_count / o.batch_size)) o.clients_per_thread k l)

-- With at least one CPU and one client, and a log whose planned size is below 2^64 bytes: `main`
-- exits with 1 if a port is not in 1..65536 or an operand is missing; it divides by 0 if
-- `batch_size` is 0; else it starts between 1 and `nr_cpus` threads, and each log has room for
-- exactly 8 times the planned entries, four values each, with no wrap-around on the way.
pub prepare-Prepared :
    (cpus : ℕ) (o : Options)
    → 1 ≤ cpus
    → 1 ≤ o.clients_per_thread
    → o.msg_size < 2 ^ 64
    → 48 * (8 * planned o) < 2 ^ 64
    → Prepared cpus o (prepare cpus o)
unfolding prepare
prepare-Prepared cpus o c k m l = elim (Bool-cases (bad_port o.port)) [
  | inl e ↦ rw (e) (refused (inl e))
  | inr e ↦ elim (Bool-cases (bad_port o.stats)) [
    | inl f ↦ rw (e, f) (refused (inr (inl f)))
    | inr f ↦ elim (Bool-cases (ltb o.operands 2)) [
      | inl g ↦ rw (e, f, g) (refused (inr (inr (ltb→lt _ _ g))))
      | inr g ↦
          rw (e, f, g)
            (sizes-Prepared cpus o c k m l (bad_port-IsPort o.port e) (bad_port-IsPort o.stats f)
              (ltb→le _ _ g))
    ]
  ]
]
