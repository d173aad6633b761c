-- ===== src/Cache/Fifo.antt =====
-- The list on the heap is a first-in first-out queue of entries.
use upcalls.Prelude.{
  ℕ, ◌+◌, ◌-◌, ◌≡◌, ◌≢◌, refl, sym, ◌∙◌, List, [], ◌∷◌, ◌++◌, some, arith, Outcome, done, ne→==,
  eq→==, replicate, append_assoc, append-nil,
}
use mathlib.Core.Path.{subst}
use upcalls.Cache.{
  Heap, BufferCache, header_size, store, zero_entry, set_next, give_out, unlink, cache_alloc,
  cache_free, fill_cache, empty_cache, init_cache,
}

abbrev pub NotIn : ℕ → List ℕ → Type 0
NotIn p [] = Unit {0}
NotIn p (x ∷ xs) = (p ≢ x) × NotIn p xs

abbrev pub AreDistinct : List ℕ → Type 0
AreDistinct [] = Unit {0}
AreDistinct (x ∷ xs) = (x ≢ 0) × NotIn x xs × AreDistinct xs

abbrev pub first_of : ℕ → List ℕ → ℕ
first_of d [] = d
first_of d (x ∷ xs) = x

abbrev pub rest_of : List ℕ → List ℕ
rest_of [] = []
rest_of (x ∷ xs) = xs

abbrev pub last_of : List ℕ → ℕ
last_of [] = 0
last_of (x ∷ []) = x
last_of (x ∷ y ∷ ys) = last_of (y ∷ ys)

-- The `next` fields chain the entries; the last one's is NULL.
abbrev pub Links : (ℕ → ℕ) → List ℕ → Type 0
Links next [] = Unit {0}
Links next (x ∷ xs) = (next x ≡ first_of 0 xs) × Links next xs

-- A cache that holds the entries `q`, oldest first.
pub record Cached (q : List ℕ) (c : BufferCache) (h : Heap) : Type 0 where
  pub head_is : c.head ≡ first_of 0 q
  pub tail_is : c.tail ≡ last_of q
  pub links : Links h.next q
  pub distinct : AreDistinct q

NotIn-last_of : (p x : ℕ) (xs : List ℕ) → NotIn p (x ∷ xs) → p ≢ last_of (x ∷ xs)
NotIn-last_of p x [] (h, _) = h
NotIn-last_of p x (y ∷ ys) (_, h) = NotIn-last_of p y ys h

last_of-nonnull : (x : ℕ) (xs : List ℕ) → AreDistinct (x ∷ xs) → last_of (x ∷ xs) ≢ 0
last_of-nonnull x [] (h, _, _) = h
last_of-nonnull x (y ∷ ys) (_, _, h) = last_of-nonnull y ys h

last_of-snoc : (xs : List ℕ) (p : ℕ) → last_of (xs ++ (p ∷ [])) ≡ p
last_of-snoc [] p = refl
last_of-snoc (x ∷ []) p = refl
last_of-snoc (x ∷ y ∷ ys) p = last_of-snoc (y ∷ ys) p

NotIn-snoc : (p x : ℕ) (xs : List ℕ) → NotIn p xs → p ≢ x → NotIn p (xs ++ (x ∷ []))
NotIn-snoc p x [] h k = (k, tt)
NotIn-snoc p x (y ∷ ys) (a, h) k = (a, NotIn-snoc p x ys h k)

AreDistinct-snoc :
    (xs : List ℕ) (p : ℕ) → AreDistinct xs → NotIn p xs → p ≢ 0 → AreDistinct (xs ++ (p ∷ []))
AreDistinct-snoc [] p h n z = (z, tt, tt)
AreDistinct-snoc (x ∷ xs) p (a, b, h) (k, n) z =
    (a, NotIn-snoc x p xs b (λ e. k (sym e)), AreDistinct-snoc xs p h n z)

-- A write to an entry outside the list leaves its links.
Links-store :
    (next : ℕ → ℕ) (p v : ℕ) (xs : List ℕ) → Links next xs → NotIn p xs → Links (store p v next) xs
Links-store next p v [] l n = tt
Links-store next p v (x ∷ xs) (e, l) (k, n) =
    (rw (ne→== x p (λ f. k (sym f))) e, Links-store next p v xs l n)

-- `cache->tail->next = entry`
Links-snoc :
    (next : ℕ → ℕ) (p x : ℕ) (xs : List ℕ)
    → Links next (x ∷ xs)
    → AreDistinct (x ∷ xs)
    → NotIn p (x ∷ xs)
    → next p ≡ 0
    → Links (store (last_of (x ∷ xs)) p next) ((x ∷ xs) ++ (p ∷ []))
Links-snoc next p x [] l d (k, _) z = (rw (eq→== x x refl) refl, (rw (ne→== p x k) z, tt))
Links-snoc next p x (y ∷ ys) (e, l) (_, n, d) (_, k) z =
    (rw (ne→== x (last_of (y ∷ ys)) (NotIn-last_of x y ys n)) e, Links-snoc next p y ys l d k z)

-- A buffer whose entry is not in the cache, and has no `next`, goes to the end of the queue.
pub cache_free-Cached :
    (q : List ℕ) (p : ℕ) (c : BufferCache) (h : Heap)
    → Cached q c h
    → NotIn p q
    → p ≢ 0
    → h.next p ≡ 0
    → Cached
        (q ++ (p ∷ []))
        (cache_free (p + header_size) c h).0
        (cache_free (p + header_size) c h).1
unfolding cache_free
cache_free-Cached [] p c h v n z e =
    let back : p + header_size - header_size ≡ p = omega arith in
    rw (v.tail_is, back)
      (record { head_is = refl; tail_is = refl; links = (e, tt); distinct = (z, tt, tt) })
cache_free-Cached (x ∷ xs) p c h v n z e =
    let back : p + header_size - header_size ≡ p = omega arith in
    rw (ne→== c.tail 0 (λ f. last_of-nonnull x xs v.distinct (sym v.tail_is ∙ f)), back)
      (record {
        head_is = v.head_is;
        tail_is = sym (last_of-snoc (x ∷ xs) p);
        links =
            subst (λ t. Links (store t p h.next) ((x ∷ xs) ++ (p ∷ []))) (sym v.tail_is)
              (Links-snoc h.next p x xs v.links v.distinct n e);
        distinct = AreDistinct-snoc (x ∷ xs) p v.distinct n z;
      })

-- What `cache_alloc` returns: the buffer of entry `p`, zeroed, with no `next`; the cache holds `q`,
-- and the entry is not among them.
pub data Given (p size : ℕ) (q : List ℕ) : Outcome (ℕ × BufferCache × Heap) → Type 0 where
  given :
      {c : BufferCache} {h : Heap}
      → Cached q c h
      → h.buffer p ≡ replicate size 0
      → h.next p ≡ 0
      → NotIn p q
      → Given p size q (done (p + header_size, c, h))

unlink-tail :
    (x : ℕ) (xs : List ℕ) (c : BufferCache) (h : Heap)
    → Cached (x ∷ xs) c h
    → (unlink c h).tail ≡ last_of xs
unlink-tail x [] c h v = rw (v.head_is, v.links.0) refl
unlink-tail x (y ∷ ys) c h v = rw (v.head_is, v.links.0, ne→== y 0 (v.distinct.2.0)) v.tail_is

store_same : {A : Type 0} (p : ℕ) (v : A) (f : ℕ → A) → store p v f p ≡ v
store_same p v f = rw (eq→== p p refl) refl

give_out-Given :
    {q : List ℕ} (p : ℕ) (c : BufferCache) (h : Heap)
    → Cached q c h
    → h.next p ≡ 0
    → NotIn p q
    → Given p c.entry_sz q (done (give_out p c h))
give_out-Given p c h v e n =
    given {h = record h { buffer = store p (replicate c.entry_sz 0) h.buffer }}
      (record { head_is = v.head_is; tail_is = v.tail_is; links = v.links; distinct = v.distinct })
      (store_same p (replicate c.entry_sz 0) h.buffer) e n

-- `cache_alloc` takes the oldest entry of the cache, or a new one from `calloc` if there is none.
-- The buffer that it returns is zeroed, its entry has no `next` and is no longer in the cache, and
-- the other entries stay, in their order. `calloc` gives an address that is not in the cache.
pub cache_alloc-Given :
    (q : List ℕ) (at cpu : ℕ) (c : BufferCache) (h : Heap)
    → Cached q c h
    → NotIn at q
    → at ≢ 0
    → Given (first_of at q) c.entry_sz (rest_of q) (cache_alloc (some at) cpu c h)
unfolding cache_alloc
cache_alloc-Given [] at cpu c h v n z = rw (eq→== c.head 0 v.head_is) (
    give_out-Given at c
      (record (zero_entry at c.entry_sz h) {
        alloc_cpu = store at cpu (zero_entry at c.entry_sz h).alloc_cpu;
      })
      (record { head_is = v.head_is; tail_is = v.tail_is; links = tt; distinct = tt })
      (store_same at 0 h.next) tt)
cache_alloc-Given (x ∷ xs) at cpu c h v n z =
    rw (ne→== c.head 0 (λ f. v.distinct.0 (sym v.head_is ∙ f))) (
      subst (λ p. Given p c.entry_sz xs (done (give_out c.head (unlink c h) (set_next c.head 0 h))))
        v.head_is
        (give_out-Given c.head (unlink c h) (set_next c.head 0 h)
          (record {
            head_is = rw (v.head_is) v.links.0;
            tail_is = unlink-tail x xs c h v;
            links = Links-store h.next c.head 0 xs v.links.1 outside;
            distinct = v.distinct.2;
          })
          (store_same c.head 0 h.next) outside))
  where
    outside : NotIn c.head xs
    outside = rw (v.head_is) v.distinct.1

zero_entry-Cached :
    (q : List ℕ) (p size : ℕ) (c : BufferCache) (h : Heap)
    → Cached q c h
    → NotIn p q
    → Cached q c (zero_entry p size h)
zero_entry-Cached q p size c h v n = record {
  head_is = v.head_is;
  tail_is = v.tail_is;
  links = Links-store h.next p 0 q v.links n;
  distinct = v.distinct;
}

-- The entries that `init_cache` gets are new: not in the cache, and different from each other.
abbrev pub AreFresh : List ℕ → List ℕ → Type 0
AreFresh q [] = Unit {0}
AreFresh q (p ∷ ps) = (p ≢ 0) × NotIn p q × AreFresh (q ++ (p ∷ [])) ps

fill_cache-Cached :
    (q ps : List ℕ) (c : BufferCache) (h : Heap)
    → Cached q c h
    → AreFresh q ps
    → Cached (q ++ ps) (fill_cache ps c h).0 (fill_cache ps c h).1
unfolding fill_cache
fill_cache-Cached q [] c h v f = rw (append-nil q) v
fill_cache-Cached q (p ∷ ps) c h v (z, n, f) = rw⁻¹ (append_assoc q (p ∷ []) ps) (
    fill_cache-Cached (q ++ (p ∷ [])) ps _ _
      (cache_free-Cached q p c (zero_entry p c.entry_sz h)
        (zero_entry-Cached q p c.entry_sz c h v n) n z (store_same p 0 h.next))
      f)

-- `init_cache` makes a cache of the entries that `calloc` gave it, in that order, if they are not
-- NULL and different from each other.
pub init_cache-Cached :
    (size : ℕ) (ps : List ℕ) (h : Heap)
    → AreFresh [] ps
    → Cached ps (init_cache size ps h).0 (init_cache size ps h).1
init_cache-Cached size ps h f =
    fill_cache-Cached [] ps (empty_cache size) h
      (record { head_is = refl; tail_is = refl; links = tt; distinct = tt }) f
