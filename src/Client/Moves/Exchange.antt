-- ===== src/Client/Moves/Exchange.antt =====
-- State SENT: a response arrives, whole or in parts.
use upcalls.Prelude.{
  ℕ, Option, none, some, ◌+◌, ◌*◌, ◌^◌, ◌≤◌, ◌<◌, ◌≡◌, refl, inl, inr, Bool, true, false, List,
  arith, ltb, ltb→lt, ◌==◌, Bool-cases, ==→eq, minus64, minus64-one,
}
use upcalls.Client.{
  idle, ready, sent, finished, World, Run, returns, in_recv, blocking, ◌>>=◌, Reply, recv_start,
  recv_done, enter, stamp,
}
use upcalls.Client.Io.{recv_loop, used}
use upcalls.Client.Io.Unfinished.{recv_loop-GoesOn}
use upcalls.Client.Machine.{
  Step, unchecked, one_more, from_sent, next_request, after_response, after_recv, response,
  used_batch, received,
}
use upcalls.Client.Sane.{InBatch, IsSane, Moved, moved, waiting, settle}
use upcalls.Client.Moves.{unchecked_lem}
use upcalls.Client.Moves.Connect.{Continues}

module _ {tc bs : ℕ} where
  pub one_more_lem :
      {t u : ℕ} {r : Run (ℕ × World)} → u + 1 ≡ t → Moved tc bs 0 u r → Moved tc bs 1 t (one_more r)
  one_more_lem h (moved n w r e k) = moved (1 + n) w r (omega arith) (omega arith)
  one_more_lem h (waiting p q) = waiting p q

  pub at_most_one : {t : ℕ} {r : Run (ℕ × World)} → Moved tc bs 0 t r → Moved tc bs 1 t r
  at_most_one (moved n w r e k) = moved n w r e (omega arith)
  at_most_one (waiting p q) = waiting p q

module _ {tc bs : ℕ} (tc_small : tc < 2 ^ 64) (bs_small : bs < 2 ^ 64) (again : Step)
    (to_idle : Continues tc bs idle again) (to_ready : Continues tc bs ready again)
    (to_finished : Continues tc bs finished again) where
  next_request_lem :
      {t : ℕ} (k : ℕ) (w : World)
      → w.client.cursor ≡ 0
      → 1 ≤ w.client.txn_remaining
      → w.client.txn_remaining + bs * k ≡ tc + w.client.batch_remaining
      → w.client.txn_remaining ≤ tc
      → w.client.batch_remaining ≤ bs
      → w.client.txn_remaining + 1 ≡ t
      → Moved tc bs 1 t (next_request tc bs again w)
  next_request_lem {t} k w z p a l b h = elim (Bool-cases (w.client.batch_remaining == 0)) [
    | inl e ↦ rw (e) (
        unchecked_lem (unchecked reconnect) w λ rs.
          unchecked_lem reconnect (record w { replies = rs })
            λ rs'. one_more_lem h (
              to_idle (record w { replies = rs' })
                (record {
                  txn_le = l;
                  cursor_in = inl z;
                  pending = λ _. p;
                  over = λ _ f. absurd (ground arith);
                  in_batch = (k, ground arith);
                })))
    | inr e ↦ rw (e) (
        one_more_lem h (
          to_ready w (record {
            txn_le = l;
            cursor_in = inl z;
            pending = λ _. p;
            over = λ _ f. absurd (ground arith);
            in_batch = (k, a, ground arith, b);
          })))
  ]
    where
      reconnect : Step
      reconnect w' = one_more (again (enter idle w'))

  after_response_lem :
      {t : ℕ} (k : ℕ) (w : World)
      → w.client.cursor ≡ 0
      → w.client.txn_remaining + 1 + bs * k ≡ tc + w.client.batch_remaining
      → w.client.txn_remaining ≤ tc
      → 1 ≤ w.client.batch_remaining
      → w.client.batch_remaining ≤ bs
      → w.client.txn_remaining + 1 ≡ t
      → Moved tc bs 1 t (after_response tc bs again w)
  after_response_lem {t} k w z a l p b h = elim (Bool-cases (w.client.txn_remaining == 0)) [
    | inl e ↦ rw (e) (
        one_more_lem h (
          to_finished w (record {
            txn_le = l;
            cursor_in = inl z;
            pending = λ f. absurd (f refl);
            over = λ _ _. ==→eq _ _ e;
            in_batch = tt;
          })))
    | inr e ↦ rw (e) (
        next_request_lem k (used_batch tc bs again w) z (ground arith)
          (omega (arith, minus64-one w.client.batch_remaining p (omega arith))) l
          (omega (arith, minus64-one w.client.batch_remaining p (omega arith))) h)
  ]

  after_recv_lem :
      (w : World)
      → w.client.state ≡ sent
      → w.client.txn_remaining ≤ tc
      → 1 ≤ w.client.txn_remaining
      → InBatch tc bs sent w.client.txn_remaining w.client.batch_remaining
      → Moved tc bs 1 w.client.txn_remaining (after_recv tc bs again w)
  after_recv_lem w e l p (k, a, q, b) = elim (Bool-cases (ltb w.client.cursor w.client.buf_size)) [
    | inl c ↦ rw (c) (
        moved 0 w
          (settle sent w
            (record {
              txn_le = l;
              cursor_in = inr (refl, ltb→lt _ _ c);
              pending = λ _. p;
              over = λ _ f. absurd (ground arith);
              in_batch = (k, a, q, b);
            })
            e (λ _. (refl, λ f. absurd (ground arith))))
          (omega arith) (omega arith))
    | inr c ↦ rw (c) (
        after_response_lem k (response tc bs again w) refl
          (omega (arith, minus64-one w.client.txn_remaining p (omega arith)))
          (omega (arith, minus64-one w.client.txn_remaining p (omega arith))) q b
          (omega (arith, minus64-one w.client.txn_remaining p (omega arith))))
  ]

  pub sent_lem :
      (w : World)
      → IsSane tc bs w.dying sent w.client
      → w.client.state ≡ sent
      → Moved tc bs 1 w.client.txn_remaining (from_sent tc bs again w)
  sent_lem w v e = split (recv_loop (minus64 w.client.buf_size w.client.cursor) 0 w.replies) refl
    where
      split :
          (o : Option (ℕ × Bool × List Reply))
          → recv_loop (minus64 w.client.buf_size w.client.cursor) 0 w.replies ≡ o
          → Moved tc bs 1 w.client.txn_remaining (
              (blocking (in_recv (minus64 w.client.buf_size w.client.cursor) w.replies) o
                >>= λ (got, broke, rs). returns (got, used (stamp tc recv_start w) broke rs))
              >>= λ (got, w').
                  after_recv tc bs again (stamp tc recv_done (received tc bs again got w')))
      split none x = waiting (in_recv _ w.replies) (recv_loop-GoesOn _ w.replies x)
      split (some (got, true, rs)) x =
          after_recv_lem
            (stamp tc recv_done (received tc bs again got (used (stamp tc recv_start w) true rs))) e
            v.txn_le (v.pending (ground arith)) v.in_batch
      split (some (got, false, rs)) x =
          after_recv_lem
            (stamp tc recv_done (received tc bs again got (used (stamp tc recv_start w) false rs)))
            e v.txn_le (v.pending (ground arith)) v.in_batch
