-- ===== src/Cache.antt =====
-- event-tester/tcp_echo.c: a cache of equal-sized buffers, a linked list on the heap. A buffer is
-- given out by its own address, 16 bytes after the header of its entry.
pub mod Fifo
mod Tests
use upcalls.Prelude.{
  ℕ, zero, suc, ◌+◌, ◌-◌, Bool, Option, none, some, List, [], ◌∷◌, Outcome, done, exit, ◌>>=◌, ◌==◌,
  if◌then◌else◌, replicate,
}

-- The heap: the fields of `struct buffer_entry` at each address.
pub record Heap : Type 0 where
  pub next : ℕ → ℕ
  pub alloc_cpu : ℕ → ℕ
  pub buffer : ℕ → List ℕ

-- `struct buffer_cache`
pub record BufferCache : Type 0 where
  pub head : ℕ
  pub tail : ℕ
  pub entry_sz : ℕ

-- `sizeof(struct buffer_entry)`
abbrev pub header_size : ℕ
header_size = 16

abbrev pub store {ℓ} : {A : Type ℓ} → ℕ → A → (ℕ → A) → ℕ → A
store p v f q = if q == p then v else f q

-- What the process exits with when it follows a null pointer.
abbrev pub segv : ℕ
segv = 139

-- `calloc` of an entry at `p`.
abbrev pub zero_entry : ℕ → ℕ → Heap → Heap
zero_entry p size h = record {
  next = store p 0 h.next;
  alloc_cpu = store p 0 h.alloc_cpu;
  buffer = store p (replicate size 0) h.buffer;
}

abbrev pub set_next : ℕ → ℕ → Heap → Heap
set_next p q h = record h { next = store p q h.next }

-- `memset(entry->buffer, 0, cache->entry_sz)`, and the address of the buffer.
abbrev pub give_out : ℕ → BufferCache → Heap → ℕ × BufferCache × Heap
give_out p c h =
    (p + header_size, c, record h { buffer = store p (replicate c.entry_sz 0) h.buffer })

-- `calloc` gives `at`, or fails; `entry->alloc_cpu = cpu` is not guarded.
abbrev pub from_calloc : Option ℕ → ℕ → BufferCache → Heap → Outcome (ℕ × BufferCache × Heap)
from_calloc none cpu c h = exit segv
from_calloc (some at) cpu c h =
    let h' = zero_entry at c.entry_sz h in
    done (give_out at c (record h' { alloc_cpu = store at cpu h'.alloc_cpu }))

-- `cache->head = entry->next; if (!cache->head) cache->tail = NULL;`
abbrev pub unlink : BufferCache → Heap → BufferCache
unlink c h =
    let head = h.next c.head in record c { head = head; tail = if head == 0 then 0 else c.tail }

-- `cache_alloc`
unfoldable pub cache_alloc : Option ℕ → ℕ → BufferCache → Heap → Outcome (ℕ × BufferCache × Heap)
cache_alloc fresh cpu c h =
    if c.head == 0
    then from_calloc fresh cpu c h
    else done (give_out c.head (unlink c h) (set_next c.head 0 h))

-- `cache_free`. The comparison of the CPUs has no effect.
unfoldable pub cache_free : ℕ → BufferCache → Heap → BufferCache × Heap
cache_free buff c h =
    let entry = buff - header_size in
    if c.tail == 0
    then (record c { head = entry; tail = entry }, h)
    else (record c { tail = entry }, set_next c.tail entry h)

-- The loop of `init_cache`, over the entries that `calloc` gives.
unfoldable pub fill_cache : List ℕ → BufferCache → Heap → BufferCache × Heap
unfolding cache_free
fill_cache [] c h = (c, h)
fill_cache (p ∷ ps) c h =
    let freed = cache_free (p + header_size) c (zero_entry p c.entry_sz h) in
    fill_cache ps freed.0 freed.1

abbrev pub empty_cache : ℕ → BufferCache
empty_cache size = record { head = 0; tail = 0; entry_sz = size }

-- `init_cache`, when no `calloc` fails.
abbrev pub init_cache : ℕ → List ℕ → Heap → BufferCache × Heap
init_cache size ps h = fill_cache ps (empty_cache size) h
