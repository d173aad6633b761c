-- ===== src/Report/Fetch.antt =====
-- event-tester/tcp_client.c: `main` reads the statistics from the server and writes them to a file, and
-- `do_error_report` reads the error report.
use upcalls.Prelude.{
  ℕ, suc, zero, ◌+◌, ◌-◌, ◌*◌, ◌/◌, ◌%◌, ◌^◌, min, ◌&&◌, List, [], ◌∷◌, ◌++◌, ltb, ◌==◌,
  if◌then◌else◌, length, take, drop, replicate,
}
use upcalls.Report.{Write, write_fails, write_none, takes}

-- What `read` does: it fails, or gives one byte and so many more, as far as they are asked for and
-- there are any before the end of the stream.
pub data Read : Type 0 where
  read_fails : Read
  gives : ℕ → Read

-- A loop over calls: it ends, the process exits, or it is in a call; or an `int` overflows, of which
-- C does not say what follows.
pub data Ended : Type 0 where
  ended : List ℕ → Ended
  gave_up : Ended
  in_call : Ended
  overflows : Ended

-- `index += optval;`, where `index` is an `int`: it becomes `k`, and then `rest` follows.
abbrev pub to_int : (k : ℕ) → (rest : Ended) → Ended
to_int k rest = if ltb k (2 ^ 31) then rest else overflows

-- How many bytes a read brings.
abbrev pub moved : (n size cursor : ℕ) → (wire : List ℕ) → ℕ
moved n size k wire = min (suc n) (min (size - k) (length wire))

-- `perf_buf`, of `size` bytes that `calloc` has zeroed, after the loop that reads into it; `got` is
-- read so far and `wire` is what comes.
unfoldable pub fetch_loop : (size : ℕ) → (got wire : List ℕ) → List Read → Ended
fetch_loop size got wire [] = in_call
fetch_loop size got wire (read_fails ∷ rs) = gave_up
fetch_loop size got wire (gives n ∷ rs) =
    let m = moved n size (length got) wire in
    let more = got ++ take m wire in
    let rest = fetch_loop size more (drop m wire) rs in
    to_int (length more) (
      if ltb 0 m && ltb (length more) size
      then rest
      else ended (more ++ replicate (size - length more) 0))

-- The loop that writes `perf_buf` to the file, from `index` on.
unfoldable pub save_loop : (buf : List ℕ) → (index : ℕ) → List Write → (file : List ℕ) → Ended
save_loop buf k [] file = in_call
save_loop buf k (write_fails ∷ rs) file = gave_up
save_loop buf k (write_none ∷ rs) file = ended file
save_loop buf k (takes n ∷ rs) file =
    let m = min (suc n) (length buf - k) in
    let more = file ++ take m (drop k buf) in
    let rest = save_loop buf (k + m) rs more in
    to_int (k + m) (if ltb 0 m && ltb (k + m) (length buf) then rest else ended more)

abbrev pub save : List Write → Ended → Ended
save ws (ended buf) = save_loop buf 0 ws []
save ws gave_up = gave_up
save ws in_call = in_call
save ws overflows = overflows

-- A `uint64_t` in memory, as 8 bytes, the lowest first; and `n` in `k` bytes.
abbrev pub word_of : List ℕ → ℕ
word_of [] = 0
word_of (b ∷ bs) = b + 256 * word_of bs

abbrev pub bytes_of : (k n : ℕ) → List ℕ
bytes_of zero n = []
bytes_of (suc k) n = n % 256 ∷ bytes_of k (n / 256)

-- The statistics in `main`, from `read(stat_sock, &perf_sz, sizeof(uint64_t))` on. That read may
-- bring less than 8 bytes; the rest of `perf_sz` is then as it was before, `junk`. `calloc` gives
-- memory.
unfoldable pub fetch_stats : (junk wire : List ℕ) → List Read → List Write → Ended
fetch_stats junk wire [] ws = in_call
fetch_stats junk wire (read_fails ∷ rs) ws = gave_up
fetch_stats junk wire (gives n ∷ rs) ws =
    let m = moved n 8 0 wire in
    if m == 0
    then gave_up
    else save ws (fetch_loop (word_of (take m wire ++ drop m junk)) [] (drop m wire) rs)

-- The loop of `do_error_report`, which ends early on an error and at the end of the stream. It ends
-- with the text that is printed.
unfoldable pub report_loop : (size : ℕ) → (buf wire : List ℕ) → List Read → Ended
report_loop size buf wire [] = in_call
report_loop size buf wire (read_fails ∷ rs) = gave_up
report_loop size buf wire (gives n ∷ rs) =
    let m = moved n size (length buf) wire in
    let more = buf ++ take m wire in
    let rest = report_loop size more (drop m wire) rs in
    if m == 0 then gave_up else if ltb (length more) size then rest else ended more
