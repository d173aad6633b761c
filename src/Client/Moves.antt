-- ===== src/Client/Moves.antt =====
-- `do_state_transition`: its error returns, and the states it leaves at once (READY, DONE).
pub mod Connect
pub mod Exchange
pub mod Depth
use upcalls.Prelude.{
  ℕ, Option, none, some, zero, suc, ◌+◌, ◌*◌, ◌^◌, ◌≤◌, ◌<◌, ◌≡◌, ◌≢◌, refl, sym, ◌⊎◌, inl, inr,
  Bool, true, false, List, [], ◌∷◌, arith, ltb, ltb→lt, ◌==◌, if◌then◌else◌, Bool-cases, ==→eq,
  negsuc, ℤ, u64, minus64, minus64-one,
}
use upcalls.Client.{
  State, idle, connecting, new, ready, sent, finished, Client, World, Run, returns, in_syscall,
  in_send, blocking, ◌>>=◌, Reply, ok, failed, einprogress, connect_start, connect_done, send_start,
  send_done, recv_start, recv_done, set_dying, enter, stamp,
}
use upcalls.Client.Io.{send_loop, recv_loop, used, connect_result}
use upcalls.Client.Io.Unfinished.{send_loop-GoesOn}
use upcalls.Client.Machine.{
  Step, connect_now, closed, close_socket, checked, unchecked, one_more, stay, new_batch,
  with_socket, from_idle, from_connecting, from_new, from_ready, from_sent, from_finished,
  from_state, so_error, next_request, after_response, after_recv, response, used_batch, received,
  do_state_transition,
}
use upcalls.Client.Sane.{
  InBatch, Sane, IsSane, settled, Rests, Moved, moved, waiting, dead, carry, ended, settle,
  not_alive,
}

module _ {tc bs : ℕ} where
  -- `set_dying` and `return 0`.
  pub dies :
      {t : ℕ} {died : Bool} {s : State} (w : World)
      → IsSane tc bs died s w.client
      → w.client.state ≡ s
      → w.client.txn_remaining ≡ t
      → Moved tc bs 0 t (returns (0, set_dying w))
  dies {s = s} w v e h =
      moved 0 (set_dying w) (settle s (set_dying w) (dead v) e (λ h. not_alive h)) (omega arith)
        (omega arith)

  pub checked_lem :
      {t : ℕ} {died : Bool} {s : State} (next : Reply → Step) (w : World)
      → IsSane tc bs died s w.client
      → w.client.state ≡ s
      → w.client.txn_remaining ≡ t
      → ((r : Reply) (rs : List Reply) → Moved tc bs 0 t (next r (record w { replies = rs })))
      → Moved tc bs 0 t (checked next w)
  checked_lem {t} next w v e h f = split w.replies
    where
      split : (rs : List Reply) → Moved tc bs 0 t (checked next (record w { replies = rs }))
      split [] = waiting in_syscall tt
      split (ok n ∷ rs) = f (ok n) rs
      split (failed c ∷ rs) = dies (record w { replies = rs }) v e h

  pub unchecked_lem :
      {m t : ℕ} (next : Step) (w : World)
      → ((rs : List Reply) → Moved tc bs m t (next (record w { replies = rs })))
      → Moved tc bs m t (unchecked next w)
  unchecked_lem {m} {t} next w f = split w.replies
    where
      split : (rs : List Reply) → Moved tc bs m t (unchecked next (record w { replies = rs }))
      split [] = waiting in_syscall tt
      split (r ∷ rs) = f rs

  pub closes :
      {t : ℕ} (w : World)
      → IsSane tc bs w.dying finished w.client
      → w.client.state ≡ finished
      → w.client.txn_remaining ≡ t
      → Moved tc bs 0 t (close_socket w)
  closes w v e h =
      moved 0 (closed w) (settle finished (closed w) v e (λ _. (refl, λ _. refl))) (omega arith)
        (omega arith)

  pub finished_lem :
      (again : Step) (w : World)
      → IsSane tc bs w.dying finished w.client
      → w.client.state ≡ finished
      → Moved tc bs 0 w.client.txn_remaining (from_finished tc bs again w)
  finished_lem again w v e = unchecked_lem (unchecked (unchecked close_socket)) w λ rs.
      unchecked_lem (unchecked close_socket) (record w { replies = rs })
        λ rs'.
          unchecked_lem close_socket (record w { replies = rs' })
            λ rs''. closes (record w { replies = rs'' }) v e refl

  pub sent_now :
      {t : ℕ} (w : World)
      → IsSane tc bs w.dying ready w.client
      → w.client.txn_remaining ≡ t
      → Moved tc bs 0 t (returns (0, enter sent (stamp tc send_done w)))
  sent_now w v h =
      moved 0 (enter sent (stamp tc send_done w))
        (settle sent (enter sent (stamp tc send_done w))
          (carry v (ground arith) (ground arith) (ground arith) v.in_batch) refl
          (λ _. (refl, λ e. absurd (ground arith))))
        (omega arith) (omega arith)

  pub ready_lem :
      (again : Step) (w : World)
      → IsSane tc bs w.dying ready w.client
      → Moved tc bs 0 w.client.txn_remaining (from_ready tc bs again w)
  ready_lem again w v = split (send_loop w.client.buf_size 0 w.replies) refl
    where
      split :
          (o : Option (Bool × List Reply))
          → send_loop w.client.buf_size 0 w.replies ≡ o
          → Moved tc bs 0 w.client.txn_remaining (
              (blocking (in_send w.client.buf_size w.replies) o >>= λ (broke, rs).
              returns (used (stamp tc send_start w) broke rs))
              >>= λ w'. returns (0, enter sent (stamp tc send_done w')))
      split (some (true, rs)) e =
          sent_now (set_dying (record (stamp tc send_start w) { replies = rs })) (dead v) refl
      split (some (false, rs)) e = sent_now (record (stamp tc send_start w) { replies = rs }) v refl
      split none e =
          waiting (in_send w.client.buf_size w.replies)
            (send_loop-GoesOn w.client.buf_size w.replies e)

  -- The end of `case INIT` if the client is not connected yet: `epoll_ctl`, and `return 0`.
  pub added :
      {t : ℕ} (s : State) (w : World)
      → IsSane tc bs w.dying s w.client
      → w.client.state ≡ s
      → (w.dying ≡ false → (settled s ≡ true) × (s ≡ finished → w.client.sock ≡ negsuc 0))
      → w.client.txn_remaining ≡ t
      → Moved tc bs 0 t (checked (λ _. stay) w)
  added s w v e f h =
      checked_lem (λ _. stay) w v e h
        λ _ rs.
          moved 0 (record w { replies = rs }) (settle s (record w { replies = rs }) v e f)
            (omega arith) (omega arith)
