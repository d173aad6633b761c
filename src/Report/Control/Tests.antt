-- ===== src/Report/Control/Tests.antt =====
-- Two clients of the error port: there is nothing to report to the first, and the second hangs up.
use upcalls.Prelude.{
  ℕ, ◌<◌, ◌≡◌, refl, Option, true, false, some, List, [], ◌∷◌, pos, arith, inl, inr,
}
use upcalls.Report.{Conn, takes, on_error, fill, send_loop}
use upcalls.Report.Text.{reading}
use upcalls.Report.Control.{Event, Wait, event, Control, Went, waits, in_write, exits, control_loop}
use upcalls.Report.Control.Closed.{
  IsOwn, IsPossible, IsKept, Keeps, ArePossible, control_loop-Keeps,
}

abbrev of_error : List (Option Conn) → ℕ → Event
of_error conns out = record {
  failing = false;
  fd = 4;
  out = pos out;
  threads = [];
  conns = conns;
  behind = [];
  writes = takes 100 ∷ [];
  added = true;
  sigpipe = false;
}

abbrev hung : Conn
hung = record { port = 7272; state = reading; cursor = 3; event_count = 1 }

abbrev leaves : Event
leaves = record (of_error [] 9) { failing = true; fd = 6 }

abbrev waited : List Wait
waited = event (of_error [] 5) ∷ event (of_error (some hung ∷ []) 6) ∷ event leaves ∷ []

abbrev control : Control
control = record { watched = λ i. false; opened = []; closed = []; unwatched = []; messages = [] }

control-IsKept : IsKept 3 4 control
control-IsKept = record { once = λ i. refl; ports = λ i o. refl }

abbrev left_over : Went → List ℕ × List ℕ
left_over (waits c) = (c.opened, c.closed)
left_over (in_write c) = (c.opened, c.closed)
left_over (exits n) = ([], [])

waited_runs : left_over (control_loop 3 4 waited control) ≡ (6 ∷ 5 ∷ [], 6 ∷ 5 ∷ [])
unfolding control_loop on_error fill send_loop
waited_runs = refl

not_port : (i : ℕ) → 4 < i → ¬ IsOwn 3 4 i
not_port i l (inl e) = omega (arith, l, e)
not_port i l (inr e) = omega (arith, l, e)

comes :
    (c : Control) (conns : List (Option Conn)) (out : ℕ)
    → 4 < out
    → c.watched out ≡ false
    → IsPossible 3 4 (of_error conns out) c
comes c conns out l h = record {
  known = λ f. inl (inr refl);
  unused = λ i e. ground (arith, h, not_port i, l, e);
}

waited-ArePossible : ArePossible 3 4 waited control
unfolding on_error fill send_loop
waited-ArePossible = (
  comes control [] 5 (omega arith) refl,
  (
    comes _ (some hung ∷ []) 6 (omega arith) refl,
    (record { known = λ f. inr refl; unused = λ i e. ground (arith, e, not_port i) }, tt),
  ),
)

control_loop-Keeps_example : Keeps 3 4 (IsKept 3 4) (control_loop 3 4 waited control)
control_loop-Keeps_example = control_loop-Keeps 3 4 waited control waited-ArePossible control-IsKept
