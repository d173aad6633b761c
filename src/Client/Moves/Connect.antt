-- ===== src/Client/Moves/Connect.antt =====
-- The states up to the connection: INIT, CONNECTING, NEW.
use upcalls.Prelude.{ℕ, zero, suc, ◌≤◌, ◌≡◌, refl, inl, inr, List, [], ◌∷◌, arith, ◌==◌, Bool-cases}
use upcalls.Client.{
  State, idle, connecting, new, ready, finished, World, Reply, in_syscall, ok, failed, einprogress,
  connect_start, connect_done, enter, stamp,
}
use upcalls.Client.Machine.{
  Step, connect_now, checked, new_batch, with_socket, from_idle, from_connecting, from_new,
  so_error,
}
use upcalls.Client.Sane.{InBatch, IsSane, Moved, waiting, carry, ended, not_alive}
use upcalls.Client.Moves.{dies, checked_lem, added}

-- The recursive call is right for clients that enter state `s`.
abbrev pub Continues : (tc bs : ℕ) → State → Step → Type 0
Continues tc bs s again =
    (w : World)
    → IsSane tc bs w.dying s w.client
    → Moved tc bs 0 w.client.txn_remaining (again (enter s w))

module _ {tc bs : ℕ} where
  -- `do_connect`, and what `case INIT` does with its result.
  pub connect_lem :
      (again : Step) (w : World)
      → IsSane tc bs w.dying ready w.client
      → Continues tc bs ready again
      → Moved tc bs 0 w.client.txn_remaining (connect_now tc bs again w)
  connect_lem again w v f = split w.replies
    where
      split :
          (rs : List Reply)
          → Moved tc bs 0 w.client.txn_remaining
              (connect_now tc bs again (record w { replies = rs }))
      split [] = waiting in_syscall tt
      split (ok n ∷ rs) =
          f (stamp tc connect_done (stamp tc connect_start (record w { replies = rs }))) v
      split (failed e ∷ rs) = elim (Bool-cases (e == einprogress)) [
        | inl p ↦ rw (p) (
            added connecting _ (carry v (ground arith) (ground arith) (ground arith) v.in_batch)
              refl (λ _. (refl, λ e. absurd (ground arith))) refl)
        | inr p ↦ rw (p) (added finished _ (ended v (ground arith)) refl (λ h. not_alive h) refl)
      ]

  -- The first batch of a new connection.
  pub next_connection :
      1 ≤ bs → (txn batch : ℕ) → InBatch tc bs idle txn batch → InBatch tc bs ready txn bs
  next_connection bs_pos txn batch (k, e) = (suc k, grind arith, bs_pos, omega arith)

  pub socket_lem :
      1 ≤ bs
      → (again : Step) (w : World) → IsSane tc bs w.dying idle w.client
      → w.client.state ≡ idle
      → w.client.batch_remaining ≡ bs
      → Continues tc bs ready again
      → Moved tc bs 0 w.client.txn_remaining
          (checked (λ _. checked (λ _. connect_now tc bs again)) w)
  socket_lem bs_pos again w v e b f =
      checked_lem (λ _. checked (λ _. connect_now tc bs again)) w v e refl
        λ _ rs.
          checked_lem (λ _. connect_now tc bs again) (record w { replies = rs }) v e refl
            λ _ rs'.
              connect_lem again (record w { replies = rs' })
                (carry v (ground arith) (ground arith) (ground arith)
                  (rw b (next_connection bs_pos _ w.client.batch_remaining v.in_batch)))
                f

  pub idle_lem :
      1 ≤ bs
      → (again : Step) (w : World) → IsSane tc bs w.dying idle w.client
      → w.client.state ≡ idle
      → Continues tc bs ready again
      → Moved tc bs 0 w.client.txn_remaining (from_idle tc bs again w)
  idle_lem bs_pos again w v e f = split w.replies
    where
      split :
          (rs : List Reply)
          → Moved tc bs 0 w.client.txn_remaining (from_idle tc bs again (record w { replies = rs }))
      split [] = waiting in_syscall tt
      split (ok n ∷ rs) =
          socket_lem bs_pos again
            (with_socket tc bs again (ok n) (new_batch tc bs again (record w { replies = rs })))
            (carry v (ground arith) (ground arith) (ground arith) v.in_batch) e refl f
      split (failed c ∷ rs) =
          dies
            (with_socket tc bs again (failed c) (new_batch tc bs again (record w { replies = rs })))
            (carry {s = idle} {s' = idle} v (ground arith) (ground arith) (ground arith) v.in_batch)
            e refl

  pub new_lem :
      (again : Step) (w : World)
      → IsSane tc bs w.dying new w.client
      → w.client.state ≡ new
      → Continues tc bs ready again
      → Moved tc bs 0 w.client.txn_remaining (from_new tc bs again w)
  new_lem again w v e f =
      checked_lem (λ _ w'. again (enter ready w')) w v e refl
        λ _ rs.
          f (record w { replies = rs })
            (carry v (ground arith) (ground arith) (ground arith) v.in_batch)

  pub so_error_lem :
      (again : Step) (r : Reply) (w : World)
      → IsSane tc bs w.dying connecting w.client
      → w.client.state ≡ connecting
      → Continues tc bs new again
      → Moved tc bs 0 w.client.txn_remaining (so_error tc bs again r w)
  so_error_lem again (ok zero) w v e f =
      f w (carry v (ground arith) (ground arith) (ground arith) v.in_batch)
  so_error_lem again (ok (suc n)) w v e f = dies w v e refl
  so_error_lem again (failed c) w v e f = dies w v e refl

  pub connecting_lem :
      (again : Step) (w : World)
      → IsSane tc bs w.dying connecting w.client
      → w.client.state ≡ connecting
      → Continues tc bs new again
      → Moved tc bs 0 w.client.txn_remaining (from_connecting tc bs again w)
  connecting_lem again w v e f =
      checked_lem (λ _. checked (so_error tc bs again)) (stamp tc connect_done w) v e refl
        λ _ rs.
          checked_lem (so_error tc bs again) (record (stamp tc connect_done w) { replies = rs }) v e
            refl
            λ r rs'. so_error_lem again r (record (stamp tc connect_done w) { replies = rs' }) v e f
