-- ===== src/Client/Io/Unfinished.antt =====
-- `client_send` and `client_recv` when the results of their calls are used up before they return.
use upcalls.Prelude.{
  ℕ, ◌+◌, ◌≤◌, ◌<◌, ◌≡◌, ◌≢◌, refl, ap, ◌⊎◌, inl, inr, false, none, some, List, [], ◌∷◌, map, arith,
  length, ltb, ltb→lt, ◌==◌, Bool-cases,
}
use upcalls.Client.{Reply, ok, failed, eagain, Pause, in_syscall, in_send, in_recv, in_epoll_wait}
use upcalls.Client.Io.{send_loop, recv_loop}
use upcalls.Client.Io.Transfer.{sum}

abbrev pub ArePositive : List ℕ → Type 0
ArePositive [] = Unit {0}
ArePositive (n ∷ ns) = (1 ≤ n) × ArePositive ns

-- A loop over `len` bytes that goes on after `results`: no call failed, and together they moved less
-- than `len`. So there were no more calls than bytes, unless one of them returned 0.
pub record GoesOn (len : ℕ) (results : List Reply) : Type 0 where
  pub amounts : List ℕ
  pub all_ok : results ≡ map ok amounts
  pub less : (amounts ≡ []) ⊎ (sum amounts < len)
  pub soon : ArePositive amounts → length amounts ≤ len

-- From `cursor` on.
record Continues (len cursor : ℕ) (results : List Reply) : Type 0 where
  amounts : List ℕ
  all_ok : results ≡ map ok amounts
  less : (amounts ≡ []) ⊎ (cursor + sum amounts < len)
  soon : ArePositive amounts → length amounts ≤ sum amounts

none_yet : (len cursor : ℕ) → Continues len cursor []
none_yet len cursor = record {
  amounts = [];
  all_ok = refl;
  less = inl refl;
  soon = λ p. omega arith;
}

one_more :
    {len cursor : ℕ} (n : ℕ) {rs : List Reply}
    → cursor + n < len
    → Continues len (cursor + n) rs
    → Continues len cursor (ok n ∷ rs)
one_more {len} {cursor} n l c = record {
  amounts = n ∷ c.amounts;
  all_ok = ap (λ t. ok n ∷ t) c.all_ok;
  less = inr (below c.amounts c.less);
  soon = λ (p, q). omega (arith, p, c.soon q);
}
  where
    below : (ns : List ℕ) → (ns ≡ []) ⊎ (cursor + n + sum ns < len) → cursor + (n + sum ns) < len
    below ns (inl e) = rw e (omega (arith, l))
    below ns (inr h) = omega (arith, h)

Continues-GoesOn : {len : ℕ} {rs : List Reply} → Continues len 0 rs → GoesOn len rs
Continues-GoesOn {len} c = record {
  amounts = c.amounts;
  all_ok = c.all_ok;
  less = below c.amounts c.less;
  soon = λ p. within c.amounts c.less (c.soon p);
}
  where
    below : (ns : List ℕ) → (ns ≡ []) ⊎ (0 + sum ns < len) → (ns ≡ []) ⊎ (sum ns < len)
    below ns (inl e) = inl e
    below ns (inr l) = inr (omega (arith, l))

    within : (ns : List ℕ) → (ns ≡ []) ⊎ (0 + sum ns < len) → length ns ≤ sum ns → length ns ≤ len
    within ns (inl e) h = rw e (omega arith)
    within ns (inr l) h = omega (arith, l, h)

some-ne : {A : Type 0} {a : A} → some a ≢ none
some-ne h = cc

send_loop-Continues :
    (len cursor : ℕ) (rs : List Reply) → send_loop len cursor rs ≡ none → Continues len cursor rs
unfolding send_loop
send_loop-Continues len cursor [] e = none_yet len cursor
send_loop-Continues len cursor (failed c ∷ rs) e = cc
send_loop-Continues len cursor (ok n ∷ rs) e = elim (Bool-cases (ltb (cursor + n) len)) [
  | inl b ↦ one_more n (ltb→lt _ _ b) (send_loop-Continues len (cursor + n) rs (rw b at e))
  | inr b ↦ absurd (some-ne (rw b at e))
]

recv_loop-Continues :
    (len cursor : ℕ) (rs : List Reply) → recv_loop len cursor rs ≡ none → Continues len cursor rs
unfolding recv_loop
recv_loop-Continues len cursor [] e = none_yet len cursor
recv_loop-Continues len cursor (failed c ∷ rs) e = elim (Bool-cases (c == eagain)) [
  | inl b ↦ absurd (some-ne (rw b at e))
  | inr b ↦ absurd (some-ne (rw b at e))
]
recv_loop-Continues len cursor (ok n ∷ rs) e = elim (Bool-cases (ltb (cursor + n) len)) [
  | inl b ↦ one_more n (ltb→lt _ _ b) (recv_loop-Continues len (cursor + n) rs (rw b at e))
  | inr b ↦ absurd (some-ne (rw b at e))
]

pub send_loop-GoesOn : (len : ℕ) (rs : List Reply) → send_loop len 0 rs ≡ none → GoesOn len rs
send_loop-GoesOn len rs e = Continues-GoesOn (send_loop-Continues len 0 rs e)

pub recv_loop-GoesOn : (len : ℕ) (rs : List Reply) → recv_loop len 0 rs ≡ none → GoesOn len rs
recv_loop-GoesOn len rs e = Continues-GoesOn (recv_loop-Continues len 0 rs e)

-- What is true where the results are used up.
abbrev pub IsPause : Pause → Type 0
IsPause in_syscall = Unit {0}
IsPause (in_send len rs) = GoesOn len rs
IsPause (in_recv len rs) = GoesOn len rs
IsPause (in_epoll_wait dying complete total) = (dying ≡ false) × (complete < total)
