-- ===== src/Report/Print.antt =====
-- The client prints the error report that the server sends.
use upcalls.Prelude.{
  ℕ, ◌+◌, ◌≤◌, ◌<◌, ◌≡◌, sym, ◌∙◌, ap, subst, List, [], ◌∷◌, ◌++◌, arith, ltb, if◌then◌else◌,
  ltb→le, ltb→lt, if-cases, ne→==, length, take, drop,
}
use upcalls.Report.Fetch.{Read, read_fails, gives, ended, gave_up, moved, report_loop}
use upcalls.Report.Receive.{Giving, IsMoved, moved-IsMoved}

pub report_loop-ended :
    (size : ℕ) (buf wire : List ℕ) (rs : List Read)
    → Giving rs
    → 0 < length wire
    → length buf + length wire ≡ size
    → length wire ≤ length rs
    → report_loop size buf wire rs ≡ ended (buf ++ wire)
unfolding report_loop
report_loop-ended size buf wire [] g z e l = absurd (omega (arith, z, l))
report_loop-ended size buf wire (read_fails ∷ rs) g z e l = absurd g
report_loop-ended size buf wire (gives n ∷ rs) g z e l =
    subst
      (λ b.
        (if b
          then gave_up
          else if ltb (length more) size
          then report_loop size more (drop m wire) rs
          else ended more)
        ≡ ended (buf ++ wire))
      (sym (ne→== m 0 (λ x. omega (arith, x, moves))))
      (if-cases (λ o. o ≡ ended (buf ++ wire)) (ltb (length more) size)
        (λ c.
          report_loop-ended size more (drop m wire) rs g (omega (arith, ltb→lt _ _ c, e, moves))
            (omega (arith, ltb→lt _ _ c, e, moves)) (omega (arith, l, moves))
          ∙ ap ended moves.whole)
        (λ c. ap ended (moves.last (ltb→le _ _ c))))
  where
    m : ℕ
    m = moved n size (length buf) wire

    more : List ℕ
    more = buf ++ take (moved n size (length buf) wire) wire

    moves : IsMoved size buf wire (moved n size (length buf) wire)
    moves = moved-IsMoved n size buf wire z e
