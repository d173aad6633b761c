-- ===== src/Echo/System.antt =====
-- A worker of the upcall server with the kernel: a request is queued or in the kernel until its event
-- comes, and the handler of the event asks for more.
pub mod Effects
pub mod Served
pub mod Reached
mod Tests
use upcalls.Prelude.{
  ℕ, zero, suc, ◌+◌, ◌≡◌, ◌≢◌, Bool, true, false, Option, none, some, List, [], ◌∷◌, ◌++◌, ℤ, pos,
  negsuc, is_neg, Outcome, done, ◌==◌, if◌then◌else◌, assign,
}
use upcalls.Upcall.Event.{Ptr, null, UpEvent}
use upcalls.Upcall.Queue.{Request, read, write, accept, vec, close, requested}
use upcalls.Upcall.Loop.{Call, request, give_back}
use upcalls.Upcall.Loop.Calls.{react}
use upcalls.Echo.{Conn, Server, Setting, echo_handlers}
use upcalls.Echo.Message.{IsSetting}

-- `stalled` marks connections whose last read or write failed.
pub record Sys : Type 0 where
  pub server : Server
  pub pending : List Request
  pub stalled : ℕ → Bool

-- The requests among a handler's calls.
abbrev pub asks : List Call → List Request
asks [] = []
asks (request r ∷ cs) = r ∷ asks cs
asks (give_back buf len ∷ cs) = asks cs

-- The kernel keeps a request's descriptor and function, and gives a new connection a descriptor that
-- is not in use.
pub record Completes (s : Sys) (r : Request) (e : UpEvent) : Type 0 where
  pub same_fd : e.fd ≡ (requested r).fd
  pub same_fn : e.work_fn ≡ (requested r).work_fn
  pub unused :
      (fd : ℤ) (fn : Ptr) (i : ℕ) → r ≡ accept fd fn → e.result ≡ pos i → s.server.conns i ≡ none

abbrev pub mark : (result : ℤ) → Request → (ℕ → Bool) → ℕ → Bool
mark (negsuc k) (read (pos i) fn) f = assign f i true
mark (negsuc k) (write (pos i) buf len fn) f = assign f i true
mark _ _ f = f

pub data Step (g : Setting) (s : Sys) : Sys → Type 0 where
  step :
      (before after : List Request) (r : Request) (e : UpEvent) (cs : List Call) (server : Server)
      → s.pending ≡ before ++ r ∷ after
      → Completes s r e
      → react (echo_handlers g) e s.server ≡ done (cs, server)
      → Step g s (record {
        server = server;
        pending = asks cs ++ (before ++ after);
        stalled = mark e.result r s.stalled;
      })

-- `upcall_echo_setup` asks for connections of the descriptor `listen`.
abbrev pub init : Setting → (listen : ℤ) → Sys
init g listen = record {
  server = record { conns = λ i. none; accept_count = 0; conn_count = 0; closed = [] };
  pending = accept listen g.my_accept_at ∷ [];
  stalled = λ i. false;
}

pub data Reach (g : Setting) (listen : ℤ) : Sys → Type 0 where
  start : Reach g listen (init g listen)
  later : {s t : Sys} → Reach g listen s → Step g s t → Reach g listen t
