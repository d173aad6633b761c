-- ===== src/Threads/Balance.antt =====
-- What a connection's handler has read, it writes back before it reads on.
use upcalls.Prelude.{
  ℕ, zero, suc, ◌+◌, ◌*◌, ◌≤◌, ◌<◌, ◌≡◌, refl, inl, inr, List, [], ◌∷◌, arith, ℤ, pos, negsuc, ltb,
  ltb→lt, ltb→le, Bool-cases,
}
use upcalls.Threads.{
  Phase, reading, writing, Place, advance, next_place, conn_loop, conn_handler, place,
}

-- The kernel moves no more than it was asked to.
abbrev pub Fits : ℕ → Place → List ℤ → Type 0
Fits size p (pos (suc n) ∷ rs) =
    (p.cursor + suc n ≤ size) × Fits size (next_place size (advance p.phase (suc n) p)) rs
Fits size p _ = Unit {0}

-- Whole messages are echoed: of `k` messages every byte is read and written, and the next one is
-- read up to `cursor`, or is read and written up to `cursor`.
abbrev pub Balanced : ℕ → Phase → (cursor bytes_read bytes_written : ℕ) → Type 0
Balanced size reading c r w = (k : ℕ) × (r ≡ k + c) × (w ≡ k) × ((m : ℕ) × (k ≡ size * m))
Balanced size writing c r w = (k : ℕ) × (r ≡ k + size) × (w ≡ k + c) × ((m : ℕ) × (k ≡ size * m))

abbrev pub IsBalanced : ℕ → Place → Type 0
IsBalanced size p = (p.cursor < size) × Balanced size p.phase p.cursor p.bytes_read p.bytes_written

abbrev at_place : Phase → (cursor bytes_read bytes_written : ℕ) → Place
at_place ph c r w = record { phase = ph; cursor = c; bytes_read = r; bytes_written = w }

next-IsBalanced :
    (size n : ℕ) (ph : Phase) (c r w : ℕ)
    → 0 < size
    → IsBalanced size (at_place ph c r w)
    → c + n ≤ size
    → IsBalanced size (next_place size (advance ph n (at_place ph c r w)))
next-IsBalanced size n reading c r w z (l, (k, x, y, (m, e))) f =
    elim (Bool-cases (ltb (c + n) size)) [
      | inl t ↦ rw (t) (ltb→lt _ _ t, (k, omega arith, y, (m, e)))
      | inr t ↦ rw (t) (z, (k, omega (arith, ltb→le _ _ t), omega arith, (m, e)))
    ]
next-IsBalanced size n writing c r w z (l, (k, x, y, (m, e))) f =
    elim (Bool-cases (ltb (c + n) size)) [
      | inl t ↦ rw (t) (ltb→lt _ _ t, (k, x, omega arith, (m, e)))
      | inr t ↦
          rw (t) (z, (k + size, omega arith, omega (arith, ltb→le _ _ t), (suc m, grind arith)))
    ]

conn_loop-IsBalanced :
    (size : ℕ) (p : Place) (rs : List ℤ)
    → 0 < size
    → IsBalanced size p
    → Fits size p rs
    → IsBalanced size (place (conn_loop size p rs))
unfolding conn_loop
conn_loop-IsBalanced size p [] z b f = b
conn_loop-IsBalanced size p (pos zero ∷ rs) z b f = b
conn_loop-IsBalanced size p (pos (suc n) ∷ rs) z b (fit, f) =
    conn_loop-IsBalanced size (next_place size (advance p.phase (suc n) p)) rs z
      (next-IsBalanced size (suc n) p.phase p.cursor p.bytes_read p.bytes_written z b fit) f
conn_loop-IsBalanced size p (negsuc k ∷ rs) z b f = b

-- If the kernel moves no more than it is asked to, then wherever the handler of a connection ends or
-- stands, it has read and written back every byte of a number of whole messages, and of the next it
-- has read a part; or has read all of it and written back a part. Its cursor is inside the buffer.
pub conn_handler-IsBalanced :
    (size : ℕ) (rs : List ℤ)
    → 0 < size
    → Fits size (at_place reading 0 0 0) rs
    → IsBalanced size (place (conn_handler size rs))
conn_handler-IsBalanced size rs z f =
    conn_loop-IsBalanced size (at_place reading 0 0 0) rs z
      (z, (0, omega arith, refl, (0, omega arith))) f
