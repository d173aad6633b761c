-- ===== src/Client/Team/Sum.antt =====
-- The transactions that the clients of a worker have left.
use upcalls.Prelude.{
  ℕ, zero, suc, ◌+◌, ◌*◌, ◌<◌, ◌≡◌, List, [], ◌∷◌, arith, length, get_or, set, replicate,
}
use upcalls.Client.{Client}

abbrev pub sum_left : List Client → ℕ
sum_left [] = 0
sum_left (c ∷ cs) = c.txn_remaining + sum_left cs

pub sum_left-set :
    (cs : List Client) (j : ℕ) (c d : Client)
    → j < length cs
    → sum_left (set cs j c) + (get_or cs j d).txn_remaining ≡ sum_left cs + c.txn_remaining
sum_left-set [] j c d h = absurd (omega arith)
sum_left-set (x ∷ xs) zero c d h = omega arith
sum_left-set (x ∷ xs) (suc j) c d h = omega (arith, sum_left-set xs j c d (omega arith))

pub sum_left-replicate : (n : ℕ) (c : Client) → sum_left (replicate n c) ≡ c.txn_remaining * n
sum_left-replicate zero c = ground arith
sum_left-replicate (suc n) c = grind (arith, sum_left-replicate n c)

-- If nothing is left, no client has anything left.
pub none_left :
    (cs : List Client) (j : ℕ) (d : Client)
    → j < length cs
    → sum_left cs ≡ 0
    → (get_or cs j d).txn_remaining ≡ 0
none_left [] j d h e = absurd (omega arith)
none_left (x ∷ xs) zero d h e = omega arith
none_left (x ∷ xs) (suc j) d h e = none_left xs j d (omega arith) (omega arith)
