-- ===== src/Epoll/Handover.antt =====
-- Workers of the epoll server hand connections over while they run at once. A step is what one thread
-- does under a lock, or one system call.
use upcalls.Prelude.{
  ℕ, zero, suc, ◌+◌, ◌≤◌, ◌<◌, ◌≡◌, ap, List, [], ◌∷◌, arith, done, ◌==◌, if◌then◌else◌, assign,
  length, sum, sum-change,
}
use native.Mathlib.Decide.{dec_lt}
use upcalls.Epoll.Server.{Server, Env, push, tell, take_newbie}

-- Where a worker is: in `epoll_wait` or a handler that does not matter here, between the push of a
-- connection and the write to its owner's event descriptor, or in `handle_new_conns`.
pub data Pc : Type 0 where
  polling : Pc
  telling : ℕ → Pc
  taking : Pc

pub record Sys : Type 0 where
  pub server : Server
  pub pc : ℕ → Pc

-- The `read` of `on_event`, that finds a positive value.
abbrev pub read_event : (me : ℕ) → Server → Server
read_event me s = record s { counter = assign s.counter me 0 }

pub data Step (n : ℕ) (s : Sys) : Sys → Type 0 where
  pushes :
      (me owner fd : ℕ)
      → me < n
      → s.pc me ≡ polling
      → Step n s (record { server = push owner fd s.server; pc = assign s.pc me (telling owner) })
  tells :
      (me owner : ℕ)
      → me < n
      → s.pc me ≡ telling owner
      → Step n s (record { server = tell owner s.server; pc = assign s.pc me polling })
  wakes :
      (me : ℕ)
      → me < n
      → s.pc me ≡ polling
      → 0 < s.server.counter me
      → Step n s (record { server = read_event me s.server; pc = assign s.pc me taking })
  takes :
      {t : Server} (me fd : ℕ) (rest : List ℕ) (env : Env)
      → s.pc me ≡ taking
      → s.server.incoming me ≡ fd ∷ rest
      → take_newbie me env fd rest s.server ≡ done t
      → Step n s (record s { server = t })
  finishes :
      (me : ℕ)
      → me < n
      → s.pc me ≡ taking
      → s.server.incoming me ≡ []
      → Step n s (record s { pc = assign s.pc me polling })

-- All workers poll, and no connection waits.
pub record IsStart (s : Sys) : Type 0 where
  pub idle : (w : ℕ) → s.pc w ≡ polling
  pub no_list : (w : ℕ) → s.server.incoming w ≡ []

pub data Reach (n : ℕ) : Sys → Type 0 where
  start : {s : Sys} → IsStart s → Reach n s
  later : {s t : Sys} → Reach n s → Step n s t → Reach n t

abbrev one_at : ℕ → ℕ → ℕ
one_at w v = if v == w then 1 else 0

abbrev tells_to : ℕ → Pc → ℕ
tells_to w (telling v) = one_at w v
tells_to w _ = 0

abbrev is_taking : Pc → ℕ
is_taking taking = 1
is_taking _ = 0

-- How many workers are about to write to the event descriptor of `w`.
abbrev tellers : ℕ → ℕ → (ℕ → Pc) → ℕ
tellers n w pc = sum n (λ v. tells_to w (pc v))

abbrev IsTold : ℕ → ℕ → Sys → Type 0
IsTold n w s =
    0 < length (s.server.incoming w)
    → 1 ≤ s.server.counter w + (tellers n w s.pc + is_taking (s.pc w))

tellers-assign :
    (n w i : ℕ) (pc : ℕ → Pc) (p : Pc)
    → i < n
    → tellers n w pc + tells_to w p ≡ tellers n w (assign pc i p) + tells_to w (pc i)
tellers-assign n w i pc p l = ground (
  arith,
  sum-change n (λ v. tells_to w (pc v)) (λ v. tells_to w (assign pc i p v)) i l
      (λ j d. ground arith),
)

take_newbie-keeps :
    {t : Server} (me fd : ℕ) (rest : List ℕ) (env : Env) (s : Server)
    → take_newbie me env fd rest s ≡ done t
    → (t.counter ≡ s.counter) × (t.incoming ≡ assign s.incoming me rest)
take_newbie-keeps me fd rest env s h = ground arith

Step-IsTold : {n : ℕ} {s t : Sys} (w : ℕ) → IsTold n w s → Step n s t → IsTold n w t
Step-IsTold {n} {s} w h (pushes me owner fd l p) m =
    ground (arith, h, tellers-assign n w me s.pc (telling owner) l)
Step-IsTold {n} {s} w h (tells me owner l p) m =
    ground (arith, h, tellers-assign n w me s.pc polling l)
Step-IsTold {n} {s} w h (wakes me l p k) m = ground (arith, h, tellers-assign n w me s.pc taking l)
Step-IsTold {n} {s} w h (takes me fd rest env p e o) m =
    let (same, list) = take_newbie-keeps me fd rest env s.server o in
    ground (arith, h, ap (λ f. f w) same, ap (λ f. f w) list, e)
Step-IsTold {n} {s} w h (finishes me l p e) m =
    ground (arith, h, tellers-assign n w me s.pc polling l)

IsStart-IsTold : {s : Sys} (n w : ℕ) → IsStart s → IsTold n w s
IsStart-IsTold n w h m = ground (arith, h.no_list w)

Reach-IsTold : {n : ℕ} {s : Sys} (w : ℕ) → Reach n s → IsTold n w s
Reach-IsTold {n} w (start h) = IsStart-IsTold n w h
Reach-IsTold w (later r st) = Step-IsTold w (Reach-IsTold w r) st

-- Some worker is about to tell `w`.
find_teller : (n w : ℕ) (pc : ℕ → Pc) → 1 ≤ tellers n w pc → (v : ℕ) × (v < n) × (pc v ≡ telling w)
find_teller zero w pc h = absurd (omega arith)
find_teller (suc n) w pc h = elim (dec_lt 0 (tells_to w (pc n))) [
  | yes l ↦ (n, omega arith, ground arith)
  | no l ↦ let (v, a, b) = find_teller n w pc (omega (arith, h, l)) in (v, omega (arith, a), b)
]

-- Where the news of a waiting connection is.
pub data News (n w : ℕ) (s : Sys) : Type 0 where
  in_loop : s.pc w ≡ taking → News n w s
  in_counter : 1 ≤ s.server.counter w → News n w s
  on_its_way : (v : ℕ) → v < n → s.pc v ≡ telling w → News n w s

-- In every state that the workers reach, if a connection waits on the list of `w`, then `w` is in
-- its loop over that list, or its event descriptor is readable, which `epoll_wait` reports, or some
-- worker is about to write to that descriptor: no connection is left without notice.
pub waiting-News :
    {n : ℕ} {s : Sys} (w : ℕ) → Reach n s → 0 < length (s.server.incoming w) → News n w s
waiting-News {n} {s} w r l = elim (dec_lt 0 (is_taking (s.pc w))) [
  | yes t ↦ in_loop (ground arith)
  | no t ↦ elim (dec_lt 0 (s.server.counter w)) [
    | yes k ↦ in_counter (omega arith)
    | no k ↦
        let (v, a, b) = find_teller n w s.pc (omega (arith, Reach-IsTold w r l, t, k)) in
        on_its_way v a b
  ]
]
