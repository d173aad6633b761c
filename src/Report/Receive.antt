-- ===== src/Report/Receive.antt =====
-- What the client does with the size and the text that it gets.
use upcalls.Prelude.{
  ℕ, zero, suc, refl, ◌*◌, ◌/◌, ◌^◌, ◌+◌, ◌-◌, ◌≤◌, ◌<◌, ◌≡◌, min, sym, ◌∙◌, ap, subst, ◌&&◌, List,
  [], ◌∷◌, ◌++◌, append-nil, append_assoc, arith, ltb, if◌then◌else◌, ltb→le, ltb→lt, lt→ltb,
  if-cases, length, length-append, take, drop, length-take, length-drop, take-length, replicate,
  take-drop-append, take-drop_whole, drop-length,
}
use upcalls.Report.{Write, write_fails, write_none, takes}
use upcalls.Report.Fetch.{
  Read, read_fails, gives, Ended, ended, to_int, word_of, bytes_of, moved, fetch_loop, save_loop,
  save, fetch_stats,
}
use upcalls.Report.Send.{Taking}

-- No read fails.
abbrev pub Giving : List Read → Type 0
Giving [] = Unit {0}
Giving (read_fails ∷ rs) = ⊥
Giving (gives n ∷ rs) = Giving rs

-- What a read brings of `wire`, when the buffer ends where `wire` ends.
pub record IsMoved (size : ℕ) (got wire : List ℕ) (m : ℕ) : Type 0 where
  pub some_bytes : 0 < m
  pub more_long : length (got ++ take m wire) ≡ length got + m
  pub rest_long : length (drop m wire) ≡ length wire - m
  pub whole : (got ++ take m wire) ++ drop m wire ≡ got ++ wire
  pub last : size ≤ length (got ++ take m wire) → got ++ take m wire ≡ got ++ wire

pub moved-IsMoved :
    (n size : ℕ) (got wire : List ℕ)
    → 0 < length wire
    → length got + length wire ≡ size
    → IsMoved size got wire (moved n size (length got) wire)
moved-IsMoved n size got wire z e = record {
  some_bytes = omega (arith, z, e);
  more_long = long;
  rest_long = length-drop (moved n size (length got) wire) wire;
  whole =
      append_assoc got (take (moved n size (length got) wire) wire)
        (drop (moved n size (length got) wire) wire)
      ∙ ap (λ x. got ++ x) (take-drop_whole (moved n size (length got) wire) wire);
  last = λ c. ap (λ x. got ++ x) (ap (λ j. take j wire) (same c) ∙ take-length wire);
}
  where
    long :
        length (got ++ take (moved n size (length got) wire) wire)
        ≡ length got + moved n size (length got) wire
    long = omega (
      arith,
      length-append got (take (moved n size (length got) wire) wire),
      length-take (moved n size (length got) wire) wire (omega arith),
    )

    same :
        size ≤ length (got ++ take (moved n size (length got) wire) wire)
        → moved n size (length got) wire ≡ length wire
    same c = omega (arith, c, long, e)

to_int_lem : (k : ℕ) (rest : Ended) → k < 2 ^ 31 → to_int k rest ≡ rest
to_int_lem k rest h = rw (lt→ltb k (2 ^ 31) h) refl

fetch_loop-ended :
    (size : ℕ) (got wire : List ℕ) (rs : List Read)
    → Giving rs
    → 0 < length wire
    → length got + length wire ≡ size
    → size < 2 ^ 31
    → length wire ≤ length rs
    → fetch_loop size got wire rs ≡ ended (got ++ wire)
unfolding fetch_loop
fetch_loop-ended size got wire [] g z e i l = absurd (omega (arith, z, l))
fetch_loop-ended size got wire (read_fails ∷ rs) g z e i l = absurd g
fetch_loop-ended size got wire (gives n ∷ rs) g z e i l =
    to_int_lem (length more) _ (omega (arith, i, e, moves))
    ∙ subst
        (λ b.
          (if b && ltb (length more) size
            then fetch_loop size more (drop m wire) rs
            else ended (more ++ replicate (size - length more) 0))
          ≡ ended (got ++ wire))
        (sym (lt→ltb 0 m moves.some_bytes))
        (if-cases (λ o. o ≡ ended (got ++ wire)) (ltb (length more) size)
          (λ c.
            fetch_loop-ended size more (drop m wire) rs g (omega (arith, ltb→lt _ _ c, e, moves))
              (omega (arith, ltb→lt _ _ c, e, moves)) i (omega (arith, l, moves))
            ∙ ap ended moves.whole)
          (λ c.
            ap (λ j. ended (more ++ replicate j 0)) (none_left (length more) (ltb→le _ _ c))
            ∙ ap ended (append-nil more ∙ moves.last (ltb→le _ _ c))))
  where
    m : ℕ
    m = moved n size (length got) wire

    more : List ℕ
    more = got ++ take (moved n size (length got) wire) wire

    moves : IsMoved size got wire (moved n size (length got) wire)
    moves = moved-IsMoved n size got wire z e

    none_left : (k : ℕ) → size ≤ k → size - k ≡ 0
    none_left k c = omega (arith, c)

save_loop-ended :
    (buf : List ℕ) (k : ℕ) (rs : List Write) (file : List ℕ)
    → Taking rs
    → k < length buf
    → length buf < 2 ^ 31
    → length buf ≤ k + length rs
    → save_loop buf k rs file ≡ ended (file ++ drop k buf)
unfolding save_loop
save_loop-ended buf k [] file t l i h = absurd (omega (arith, l, h))
save_loop-ended buf k (write_fails ∷ rs) file t l i h = absurd t
save_loop-ended buf k (write_none ∷ rs) file t l i h = absurd t
save_loop-ended buf k (takes n ∷ rs) file t l i h =
    to_int_lem (k + m) _ (omega (arith, i, l))
    ∙ subst
        (λ b.
          (if b && ltb (k + m) (length buf)
            then save_loop buf (k + m) rs (file ++ take m (drop k buf))
            else ended (file ++ take m (drop k buf)))
          ≡ ended (file ++ drop k buf))
        (sym (lt→ltb 0 m (omega (arith, l))))
        (if-cases (λ o. o ≡ ended (file ++ drop k buf)) (ltb (k + m) (length buf))
          (λ c.
            save_loop-ended buf (k + m) rs (file ++ take m (drop k buf)) t (ltb→lt _ _ c) i
              (omega (arith, h, l))
            ∙ ap ended whole)
          (λ c. ap ended (
            sym (append-nil (file ++ take m (drop k buf)))
            ∙ ap (λ x. (file ++ take m (drop k buf)) ++ x)
                (sym (drop-length buf (k + m) (ltb→le _ _ c)))
            ∙ whole)))
  where
    m : ℕ
    m = min (suc n) (length buf - k)

    whole :
        (file ++ take (min (suc n) (length buf - k)) (drop k buf))
          ++ drop (k + min (suc n) (length buf - k)) buf
        ≡ file ++ drop k buf
    whole =
        append_assoc file (take (min (suc n) (length buf - k)) (drop k buf))
          (drop (k + min (suc n) (length buf - k)) buf)
        ∙ ap (λ x. file ++ x) (take-drop-append k (min (suc n) (length buf - k)) buf)

-- 256 to the power `k`.
abbrev pub room : ℕ → ℕ
room zero = 1
room (suc k) = 256 * room k

word_of-bytes_of : (k n : ℕ) → n < room k → word_of (bytes_of k n) ≡ n
word_of-bytes_of zero n h = omega (arith, h)
word_of-bytes_of (suc k) n h = omega (arith, word_of-bytes_of k (n / 256) (omega (arith, h)))

-- The client gets what is on the wire behind the size, if that is right and comes whole.
pub fetch_stats-ended :
    (junk wire : List ℕ) (n : ℕ) (rs : List Read) (ws : List Write)
    → length junk ≡ 8
    → 7 ≤ n
    → 0 < length wire
    → length wire < 2 ^ 31
    → Giving rs
    → length wire ≤ length rs
    → Taking ws
    → length wire ≤ length ws
    → fetch_stats junk (bytes_of 8 (length wire) ++ wire) (gives n ∷ rs) ws ≡ ended wire
unfolding fetch_stats
fetch_stats-ended junk wire n rs ws j whole z small g l t h = rw (all_eight) (
    ap (λ y. save ws (fetch_loop y [] wire rs))
      (ap (λ y. word_of (bytes_of 8 (length wire) ++ y)) (drop-length junk 8 (omega (arith, j)))
        ∙ ap word_of (append-nil (bytes_of 8 (length wire)))
        ∙ word_of-bytes_of 8 (length wire) (omega (arith, small)))
    ∙ ap (save ws) (fetch_loop-ended (length wire) [] wire rs g z (omega arith) small l)
    ∙ save_loop-ended wire 0 ws [] t z small (omega (arith, h)))
  where
    all_eight : moved n 8 0 (bytes_of 8 (length wire) ++ wire) ≡ 8
    all_eight = omega (arith, whole, length-append (bytes_of 8 (length wire)) wire)
