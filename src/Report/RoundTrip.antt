-- ===== src/Report/RoundTrip.antt =====
-- The statistics from the server to the client's file.
use upcalls.Prelude.{
  ℕ, zero, suc, ◌+◌, ◌^◌, ◌≤◌, ◌<◌, ◌≡◌, map, refl, sym, ◌∙◌, ap, subst, List, [], ◌∷◌, ◌++◌, arith,
  length, length-append, take, replicate, Outcome, done, exit, Option, none, some, pos, u64, u64-id,
}
use upcalls.Report.{
  Write, Sent, finished, send_lines, total_length, Message, stats_message, Thread, Reading,
  write_perf_stats, on_stats, stats_of, store_readings,
}
use upcalls.Report.Text.{Line, decimal, join, print_row, stats_header}
use upcalls.Report.Fetch.{Read, gives, bytes_of, ended, fetch_stats}
use upcalls.Report.Send.{
  Taking, Finishes, finishes, send_text-Finishes, then_send-Finishes, AreLines, joined,
  send_lines-Finishes,
}
use upcalls.Report.Receive.{Giving, fetch_stats-ended}

-- Every line that is printed has a byte at least.
join-length : (fs : List (List ℕ)) → 0 < length (join fs)
join-length [] = omega arith
join-length (f ∷ []) = omega (arith, length-append f (10 ∷ []))
join-length (f ∷ g ∷ fs) = omega (arith, length-append f (9 ∷ join (g ∷ fs)))

take_some : (n : ℕ) (xs : List ℕ) → 0 < n → 0 < length xs → 0 < length (take n xs)
take_some zero xs h l = absurd (omega (arith, h))
take_some (suc n) [] h l = absurd (omega (arith, l))
take_some (suc n) (x ∷ xs) h l = omega arith

print_row-length : (fs : List ℕ) → 0 < length (print_row fs)
print_row-length fs =
    take_some 169 (join (map decimal fs)) (omega arith) (join-length (map decimal fs))

AreRows : Outcome (List Line) → Type 0
AreRows (done ls) = AreLines ls
AreRows (exit c) = Unit {0}

write_perf_stats-AreRows :
    (ts : List (Thread × Option (List Reading))) (vals : List ℕ)
    → AreRows (write_perf_stats ts vals)
unfolding write_perf_stats AreRows
write_perf_stats-AreRows [] vals = tt
write_perf_stats-AreRows ((t, none) ∷ ts) vals = tt
write_perf_stats-AreRows ((t, some rs) ∷ ts) vals =
    go (write_perf_stats ts (store_readings t.perf_ids rs vals))
      (write_perf_stats-AreRows ts (store_readings t.perf_ids rs vals))
  where
    go :
        (o : Outcome (List Line))
        → AreRows o
        → AreRows (elim o [
          | done ls ↦ done (
              print_row (
                t.index
                ∷ (take 5 (store_readings t.perf_ids rs vals)
                    ++ (t.accept_count ∷ t.conn_count ∷ [])))
              ∷ ls)
          | exit c ↦ exit c
        ])
    go (done ls) h = (
      print_row-length (
          t.index
          ∷ (take 5 (store_readings t.perf_ids rs vals) ++ (t.accept_count ∷ t.conn_count ∷ []))),
      h,
    )
    go (exit c) h = tt

length-joined : (ls : List Line) → length (joined ls) ≡ total_length ls
length-joined [] = refl
length-joined (l ∷ ls) = omega (arith, length-append l (joined ls), length-joined ls)

-- The client reads the size, as 8 bytes, and that many bytes of `sent`, and has saved them as `file`.
pub record Delivered (m : Message) (junk : List ℕ) (rs : List Read) (fs : List Write)
    (file : List ℕ) : Type 0 where
  pub sent : List ℕ
  pub rest : List Write
  pub all_sent : m.body ≡ finished sent rest
  pub all_saved : fetch_stats junk (bytes_of 8 m.announced ++ sent) rs fs ≡ ended file

stats_message-Delivered :
    (ls : List Line) (ws : List Write) (junk : List ℕ) (n : ℕ) (rs : List Read) (fs : List Write)
    → AreLines ls
    → length (stats_header ++ joined ls) < 2 ^ 31
    → length junk ≡ 8
    → 7 ≤ n
    → Taking ws
    → Giving rs
    → Taking fs
    → length (stats_header ++ joined ls) ≤ length ws
    → length (stats_header ++ joined ls) ≤ length rs
    → length (stats_header ++ joined ls) ≤ length fs
    → Delivered (stats_message ls ws) junk (gives n ∷ rs) fs (stats_header ++ joined ls)
stats_message-Delivered ls ws junk n rs fs a small j whole tw g tf lw lr lf = go (
    then_send-Finishes (λ rs sent. send_lines ls rs sent)
      (send_text-Finishes stats_header ws [] tw (omega arith) (omega (arith, lw, size)))
      (λ rest t h. send_lines-Finishes ls rest stats_header t a (omega (arith, lw, h, size))))
  where
    size : length (stats_header ++ joined ls) ≡ length stats_header + total_length ls
    size = omega (arith, length-append stats_header (joined ls), length-joined ls)

    announced : u64 (length stats_header + total_length ls) ≡ length (stats_header ++ joined ls)
    announced = u64-id _ (omega (arith, small, size)) ∙ sym size

    go :
        {o : Sent} {most : ℕ}
        → Finishes (stats_header ++ joined ls) ws most o
        → Delivered
            (record { announced = u64 (length stats_header + total_length ls); body = o })
            junk
            (gives n ∷ rs)
            fs
            (stats_header ++ joined ls)
    go (finishes rest t h) = record {
      sent = stats_header ++ joined ls;
      rest = rest;
      all_sent = refl;
      all_saved =
          ap (λ k. fetch_stats junk (bytes_of 8 k ++ (stats_header ++ joined ls)) (gives n ∷ rs) fs)
            announced
          ∙ fetch_stats-ended junk (stats_header ++ joined ls) n rs fs j whole (omega (arith, size))
              small g lr tf lf;
    }

-- Take counters of all threads that can be read, a table of less than 2^31 bytes, calls none of which
-- fails, and that are made often enough, at most once for each byte; and let the 8 bytes of the size
-- go out in one write and come in by the client's first read, whatever its variable held before. Then
-- `on_stats` sends the whole table, however its other writes are split, and the file that the client
-- writes is the header and the lines of all threads, however its other reads and its writes are
-- split.
pub on_stats-Delivered :
    (fd : ℕ) (ts : List (Thread × Option (List Reading))) (ls : List Line) (ws : List Write)
    (junk : List ℕ) (n : ℕ) (rs : List Read) (fs : List Write)
    → write_perf_stats ts (replicate 5 0) ≡ done ls
    → length (stats_header ++ joined ls) < 2 ^ 31
    → length junk ≡ 8
    → 7 ≤ n
    → Taking ws
    → Giving rs
    → Taking fs
    → length (stats_header ++ joined ls) ≤ length ws
    → length (stats_header ++ joined ls) ≤ length rs
    → length (stats_header ++ joined ls) ≤ length fs
    → (m : Message) × (on_stats (pos fd) ts ws ≡ done m)
      × Delivered m junk (gives n ∷ rs) fs (stats_header ++ joined ls)
unfolding on_stats AreRows
on_stats-Delivered fd ts ls ws junk n rs fs e small j whole tw g tf lw lr lf = (
  stats_message ls ws,
  ap (λ o. stats_of o ws) e,
  stats_message-Delivered ls ws junk n rs fs
      (subst AreRows e (write_perf_stats-AreRows ts (replicate 5 0))) small j whole tw g tf lw lr
      lf,
)
