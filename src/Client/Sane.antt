-- ===== src/Client/Sane.antt =====
-- The invariant of a client of tcp_client.c, and how a transition may end.
use upcalls.Prelude.{ℕ, ◌+◌, ◌*◌, ◌≤◌, ◌<◌, ◌≡◌, ◌≢◌, refl, ◌⊎◌, Bool, true, false, arith, negsuc}
use upcalls.Client.{
  State, idle, connecting, sent, finished, Client, World, Run, returns, waits, Pause,
}
use upcalls.Client.Io.Unfinished.{IsPause}

-- Where a client stands in its batches, after `k` connections: each but the current one has done
-- `batch_size` transactions.
abbrev pub InBatch : (transaction_count batch_size : ℕ) → State → (txn batch : ℕ) → Type 0
InBatch tc bs idle txn batch = (k : ℕ) × (txn + bs * k ≡ tc)
InBatch tc bs finished txn batch = Unit {0}
InBatch tc bs _ txn batch = (k : ℕ) × (txn + bs * k ≡ tc + batch) × (1 ≤ batch) × (batch ≤ bs)

-- The invariant of a client in state `s`: what its cursor and counters are then.
pub record Sane (tc bs : ℕ) (died : Bool) (s : State) (cursor buf_size txn batch : ℕ) : Type 0 where
  pub txn_le : txn ≤ tc
  pub cursor_in : (cursor ≡ 0) ⊎ ((s ≡ sent) × (cursor < buf_size))
  pub pending : s ≢ finished → 1 ≤ txn
  pub over : died ≡ false → s ≡ finished → txn ≡ 0
  pub in_batch : InBatch tc bs s txn batch

abbrev pub IsSane : (tc bs : ℕ) → Bool → State → Client → Type 0
IsSane tc bs died s c = Sane tc bs died s c.cursor c.buf_size c.txn_remaining c.batch_remaining

-- The states in which a client waits for the network, or is done.
abbrev pub settled : State → Bool
settled connecting = true
settled sent = true
settled finished = true
settled _ = false

pub record Rests (tc bs : ℕ) (w : World) : Type 0 where
  pub sane : IsSane tc bs w.dying w.client.state w.client
  pub at_rest : w.dying ≡ false → settled w.client.state ≡ true
  pub shut : w.dying ≡ false → w.client.state ≡ finished → w.client.sock ≡ negsuc 0

-- How a transition ends that starts with `t` transactions to do: at rest, with the returned number
-- of them completed, `most` at most, or it is not at its end when the results are used up. It does not
-- reach the depth limit.
pub data Moved (tc bs most t : ℕ) : Run (ℕ × World) → Type 0 where
  moved :
      (n : ℕ) (w : World)
      → Rests tc bs w
      → w.client.txn_remaining + n ≡ t
      → n ≤ most
      → Moved tc bs most t (returns (n, w))
  waiting : (p : Pause) → IsPause p → Moved tc bs most t (waits p)

pub not_alive : {A : Type 0} → true ≡ false → A
not_alive h = ground arith

module _ {tc bs : ℕ} where
  pub dead :
      {died : Bool} {s : State} {cursor buf txn batch : ℕ}
      → Sane tc bs died s cursor buf txn batch
      → Sane tc bs true s cursor buf txn batch
  dead v = record {
    txn_le = v.txn_le;
    cursor_in = v.cursor_in;
    pending = v.pending;
    over = λ h. not_alive h;
    in_batch = v.in_batch;
  }

  -- Into another state, with nothing received so far.
  pub carry :
      {died : Bool} {s s' : State} {cursor buf txn batch batch' : ℕ}
      → Sane tc bs died s cursor buf txn batch
      → s ≢ sent
      → s ≢ finished
      → s' ≢ finished
      → InBatch tc bs s' txn batch'
      → Sane tc bs died s' cursor buf txn batch'
  carry v h k l b = record {
    txn_le = v.txn_le;
    cursor_in = ground arith;
    pending = λ _. v.pending k;
    over = λ _ e. absurd (l e);
    in_batch = b;
  }

  -- A failed `connect`.
  pub ended :
      {died : Bool} {s : State} {cursor buf txn batch : ℕ}
      → Sane tc bs died s cursor buf txn batch
      → s ≢ sent
      → Sane tc bs true finished cursor buf txn batch
  ended v h = record {
    txn_le = v.txn_le;
    cursor_in = ground arith;
    pending = λ l. absurd (l refl);
    over = λ e. not_alive e;
    in_batch = tt;
  }

  pub settle :
      (s : State) (w : World)
      → IsSane tc bs w.dying s w.client
      → w.client.state ≡ s
      → (w.dying ≡ false → (settled s ≡ true) × (s ≡ finished → w.client.sock ≡ negsuc 0))
      → Rests tc bs w
  settle s w v e f = record {
    sane = simp (e) v;
    at_rest = λ h. rw e (f h).0;
    shut = λ h. rw e (f h).1;
  }
