-- ===== src/Cache/Tests.antt =====
-- A cache of two entries.
use upcalls.Prelude.{◌==◌, if◌then◌else◌, refl, some, [], ◌∷◌, arith}
use upcalls.Cache.{Heap, BufferCache, cache_alloc, cache_free}
use upcalls.Cache.Fifo.{Cached, cache_free-Cached, Given, cache_alloc-Given}

abbrev junk : Heap
junk = record { next = λ _. 77; alloc_cpu = λ _. 5; buffer = λ _. 9 ∷ [] }

abbrev cache : BufferCache
cache = record { head = 1000; tail = 2000; entry_sz = 4 }

abbrev heap : Heap
heap = record junk { next = λ p. if p == 1000 then 2000 else 0 }

heap-Cached : Cached (1000 ∷ 2000 ∷ []) cache heap
heap-Cached = record {
  head_is = refl;
  tail_is = refl;
  links = (refl, (refl, tt));
  distinct = (
    (λ e. absurd (omega (arith, e))),
    ((λ e. absurd (omega (arith, e))), tt),
    ((λ e. absurd (omega (arith, e))), tt, tt),
  );
}

cache_alloc-Given_example : Given 1000 4 (2000 ∷ []) (cache_alloc (some 3000) 2 cache heap)
cache_alloc-Given_example =
    cache_alloc-Given (1000 ∷ 2000 ∷ []) 3000 2 cache heap heap-Cached
      ((λ e. absurd (omega (arith, e))), ((λ e. absurd (omega (arith, e))), tt))
      (λ e. absurd (omega (arith, e)))

cache_free-Cached_example :
    Cached (1000 ∷ 2000 ∷ 3000 ∷ []) (cache_free 3016 cache heap).0 (cache_free 3016 cache heap).1
cache_free-Cached_example =
    cache_free-Cached (1000 ∷ 2000 ∷ []) 3000 cache heap heap-Cached
      ((λ e. absurd (omega (arith, e))), ((λ e. absurd (omega (arith, e))), tt))
      (λ e. absurd (omega (arith, e))) refl
