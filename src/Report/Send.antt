-- ===== src/Report/Send.antt =====
-- The server's loops send a text whole, however the writes split it.
use upcalls.Prelude.{
  ℕ, suc, ◌+◌, ◌-◌, ◌≤◌, ◌<◌, ◌≡◌, min, sym, ◌∙◌, ap, subst, List, [], ◌∷◌, ◌++◌, append-nil,
  append_assoc, arith, ltb, if◌then◌else◌, ltb→le, ltb→lt, if-cases, ne→==, length, take, drop,
  take-drop-append, drop-length,
}
use upcalls.Report.{
  Write, write_fails, write_none, takes, Sent, finished, failed, send_loop, then_send, send_lines,
  total_length,
}
use upcalls.Report.Text.{Line}

-- Every write takes something.
abbrev pub Taking : List Write → Type 0
Taking [] = Unit {0}
Taking (write_fails ∷ rs) = ⊥
Taking (write_none ∷ rs) = ⊥
Taking (takes n ∷ rs) = Taking rs

-- All is sent, in at most `most` writes.
pub data Finishes (all : List ℕ) (rs : List Write) (most : ℕ) : Sent → Type 0 where
  finishes :
      (rest : List Write)
      → Taking rest
      → length rs ≤ length rest + most
      → Finishes all rs most (finished all rest)

one_more :
    {all : List ℕ} {rs : List Write} {most less : ℕ} (r : Write) {o : Sent}
    → less < most
    → Finishes all rs less o
    → Finishes all (r ∷ rs) most o
one_more r l (finishes rest t h) = finishes rest t (omega (arith, h, l))

pub send_loop-Finishes :
    (msg : List ℕ) (k : ℕ) (rs : List Write) (sent : List ℕ)
    → Taking rs
    → k < length msg
    → length msg ≤ k + length rs
    → Finishes (sent ++ drop k msg) rs (length msg - k) (send_loop msg k rs sent)
unfolding send_loop
send_loop-Finishes msg k [] sent t l h = absurd (omega (arith, l, h))
send_loop-Finishes msg k (write_fails ∷ rs) sent t l h = absurd t
send_loop-Finishes msg k (write_none ∷ rs) sent t l h = absurd t
send_loop-Finishes msg k (takes n ∷ rs) sent t l h =
    subst
      (λ b. Finishes (sent ++ drop k msg) (takes n ∷ rs) (length msg - k) (
        if b
        then failed
        else if ltb (k + m) (length msg)
        then send_loop msg (k + m) rs (sent ++ take m (drop k msg))
        else finished (sent ++ take m (drop k msg)) rs))
      (sym (ne→== m 0 (λ e. omega (arith, e, l))))
      (if-cases (Finishes (sent ++ drop k msg) (takes n ∷ rs) (length msg - k))
        (ltb (k + m) (length msg))
        (λ c. one_more (takes n) (omega (arith, ltb→lt _ _ c)) (
          subst
            (λ a.
              Finishes a rs (length msg - (k + m))
                (send_loop msg (k + m) rs (sent ++ take m (drop k msg))))
            whole
            (send_loop-Finishes msg (k + m) rs (sent ++ take m (drop k msg)) t (ltb→lt _ _ c)
              (omega (arith, h, l)))))
        (λ c.
          subst (λ a. Finishes (sent ++ drop k msg) (takes n ∷ rs) (length msg - k) (finished a rs))
            (last (ltb→le _ _ c)) (finishes rs t (omega (arith, l)))))
  where
    m : ℕ
    m = min (suc n) (length msg - k)

    whole :
        (sent ++ take (min (suc n) (length msg - k)) (drop k msg))
          ++ drop (k + min (suc n) (length msg - k)) msg
        ≡ sent ++ drop k msg
    whole =
        append_assoc sent (take (min (suc n) (length msg - k)) (drop k msg))
          (drop (k + min (suc n) (length msg - k)) msg)
        ∙ ap (λ x. sent ++ x) (take-drop-append k (min (suc n) (length msg - k)) msg)

    last :
        length msg ≤ k + min (suc n) (length msg - k)
        → sent ++ drop k msg ≡ sent ++ take (min (suc n) (length msg - k)) (drop k msg)
    last c =
        sym whole
        ∙ ap (λ x. (sent ++ take (min (suc n) (length msg - k)) (drop k msg)) ++ x)
            (drop-length msg (k + min (suc n) (length msg - k)) c)
        ∙ append-nil (sent ++ take (min (suc n) (length msg - k)) (drop k msg))

pub send_text-Finishes :
    (msg : List ℕ) (rs : List Write) (sent : List ℕ)
    → Taking rs
    → 0 < length msg
    → length msg ≤ length rs
    → Finishes (sent ++ msg) rs (length msg) (send_loop msg 0 rs sent)
send_text-Finishes msg rs sent t l h = go (send_loop-Finishes msg 0 rs sent t l (omega (arith, h)))
  where
    go :
        {o : Sent}
        → Finishes (sent ++ msg) rs (length msg - 0) o
        → Finishes (sent ++ msg) rs (length msg) o
    go (finishes rest t' h') = finishes rest t' (omega (arith, h'))

pub then_send-Finishes :
    {all whole : List ℕ} {rs : List Write} {most more : ℕ} {o : Sent}
    (f : List Write → List ℕ → Sent)
    → Finishes all rs most o
    → ((rest : List Write)
        → Taking rest
        → length rs ≤ length rest + most
        → Finishes whole rest more (f rest all))
    → Finishes whole rs (most + more) (then_send o f)
then_send-Finishes {all} {whole} {rs} {most} {more} f (finishes rest t h) k = go (k rest t h)
  where
    go : {o : Sent} → Finishes whole rest more o → Finishes whole rs (most + more) o
    go (finishes rest' t' h') = finishes rest' t' (omega (arith, h, h'))

-- No line is empty.
abbrev pub AreLines : List Line → Type 0
AreLines [] = Unit {0}
AreLines (l ∷ ls) = (0 < length l) × AreLines ls

-- The lines, one after another.
abbrev pub joined : List Line → List ℕ
joined [] = []
joined (l ∷ ls) = l ++ joined ls

pub send_lines-Finishes :
    (ls : List Line) (rs : List Write) (sent : List ℕ)
    → Taking rs
    → AreLines ls
    → total_length ls ≤ length rs
    → Finishes (sent ++ joined ls) rs (total_length ls) (send_lines ls rs sent)
unfolding send_lines
send_lines-Finishes [] rs sent t a h =
    subst (λ x. Finishes x rs 0 (finished sent rs)) (sym (append-nil sent))
      (finishes rs t (omega arith))
send_lines-Finishes (l ∷ ls) rs sent t (pos_l, a) h =
    then_send-Finishes (λ rs sent. send_lines ls rs sent)
      (send_text-Finishes l rs sent t pos_l (omega (arith, h)))
      (λ rest t' h'.
        subst (λ x. Finishes x rest (total_length ls) (send_lines ls rest (sent ++ l)))
          (append_assoc sent l (joined ls))
          (send_lines-Finishes ls rest (sent ++ l) t' a (omega (arith, h, h'))))
