-- ===== src/Report/Perf.antt =====
-- Each reading of a thread goes to the place of its counter.
use upcalls.Prelude.{
  ℕ, zero, suc, ◌+◌, ◌<◌, ◌≡◌, ◌≢◌, refl, sym, ◌∙◌, ap, subst, Option, none, some, List, [], ◌∷◌,
  arith, ◌==◌, if◌then◌else◌, if-cases, ==→eq, eq→==, ne→==, ne_of_==, get_or, set, length,
  length-set, get_or-set_self, get_or-set_ne,
}
use native.Mathlib.Decide.{ℕ_discrete}
use upcalls.Report.{Reading, find_id, store_at, store_readings}

-- The value of the last reading with an id; `old` if there is none.
abbrev pub value_of : (id : ℕ) → List Reading → (old : ℕ) → ℕ
value_of id [] old = old
value_of id (r ∷ rs) old = value_of id rs (if r.id == id then r.value else old)

-- The ids of the counters differ.
abbrev pub AreDistinct : List ℕ → Type 0
AreDistinct ids =
    (i j : ℕ) → i < length ids → j < length ids → get_or ids i 0 ≡ get_or ids j 0 → i ≡ j

-- What a search from the place `k` on finds.
abbrev Finds : ℕ → List ℕ → ℕ → Option ℕ → Type 0
Finds id ids k none = (j : ℕ) → j < length ids → get_or ids j 0 ≢ id
Finds id ids k (some i) = (j : ℕ) × (i ≡ k + j) × (j < length ids) × (get_or ids j 0 ≡ id)

later-Finds :
    (id x k : ℕ) (ids : List ℕ) (o : Option ℕ)
    → x ≢ id
    → Finds id ids (suc k) o
    → Finds id (x ∷ ids) k o
later-Finds id x k ids none d h = go
  where
    go : (j : ℕ) → j < length (x ∷ ids) → get_or (x ∷ ids) j 0 ≢ id
    go zero l = d
    go (suc j) l = h j (omega (arith, l))
later-Finds id x k ids (some i) d (j, e, l, f) = (suc j, omega (arith, e), omega (arith, l), f)

find_id-Finds : (id : ℕ) (ids : List ℕ) (k : ℕ) → Finds id ids k (find_id id ids k)
find_id-Finds id [] k = λ j l. absurd (omega (arith, l))
find_id-Finds id (x ∷ ids) k =
    if-cases (Finds id (x ∷ ids) k) (id == x)
      (λ b. (0, omega arith, omega arith, sym (==→eq _ _ b)))
      (λ b.
        later-Finds id x k ids (find_id id ids (suc k)) (λ e. ne_of_== _ _ b (sym e))
          (find_id-Finds id ids (suc k)))

-- One reading changes the place of its counter only.
store_at-value :
    (ids vals : List ℕ) (id v : ℕ) (o : Option ℕ) (j : ℕ)
    → AreDistinct ids
    → length vals ≡ length ids
    → j < length ids
    → Finds id ids 0 o
    → get_or (store_at o v vals) j 0 ≡ (if id == get_or ids j 0 then v else get_or vals j 0)
store_at-value ids vals id v none j d e l f =
    subst (λ b. get_or vals j 0 ≡ (if b then v else get_or vals j 0))
      (sym (ne→== id (get_or ids j 0) (λ x. f j l (sym x)))) refl
store_at-value ids vals id v (some i) j d e l (k, p, q, f) = elim (ℕ_discrete i j) [
  | yes x ↦
      subst (λ b. get_or (set vals i v) j 0 ≡ (if b then v else get_or vals j 0))
        (sym (eq→== id (get_or ids j 0) (sym f ∙ ap (λ m. get_or ids m 0) (same x))))
        (ap (λ m. get_or (set vals i v) m 0) (sym x)
          ∙ get_or-set_self vals i v 0 (omega (arith, x, e, l)))
  | no x ↦
      subst (λ b. get_or (set vals i v) j 0 ≡ (if b then v else get_or vals j 0))
        (sym (ne→== id (get_or ids j 0) (λ y. x (omega (arith, p, d k j q l (f ∙ y))))))
        (get_or-set_ne vals i j v 0 x)
]
  where
    same : i ≡ j → k ≡ j
    same x = omega (arith, p, x)

store_at-length : (o : Option ℕ) (v : ℕ) (vals : List ℕ) → length (store_at o v vals) ≡ length vals
store_at-length none v vals = refl
store_at-length (some i) v vals = length-set vals i v

-- If the ids of a thread's counters differ, then after all readings of the thread, in whatever order
-- they come, each of its counters stands at the value of the last reading that has its id; and where there is
-- none, the value of the thread before stays.
pub store_readings-value :
    (ids : List ℕ) (rs : List Reading) (vals : List ℕ) (j : ℕ)
    → AreDistinct ids
    → length vals ≡ length ids
    → j < length ids
    → get_or (store_readings ids rs vals) j 0 ≡ value_of (get_or ids j 0) rs (get_or vals j 0)
unfolding store_readings
store_readings-value ids [] vals j d e l = refl
store_readings-value ids (r ∷ rs) vals j d e l =
    store_readings-value ids rs (store_at (find_id r.id ids 0) r.value vals) j d
      (store_at-length (find_id r.id ids 0) r.value vals ∙ e) l
    ∙ ap (value_of (get_or ids j 0) rs) (
        store_at-value ids vals r.id r.value (find_id r.id ids 0) j d e l
          (find_id-Finds r.id ids 0))
