-- ===== src/Client/Moves/Depth.antt =====
-- `do_state_transition` as a whole: it calls itself at most three deep.
use upcalls.Prelude.{ℕ, suc, ◌^◌, ◌≤◌, ◌<◌}
use upcalls.Client.Machine.{Step, do_state_transition}

module _ {tc bs : ℕ} (tc_small : tc < 2 ^ 64) (bs_small : bs < 2 ^ 64) (bs_pos : 1 ≤ bs) where
  abbrev deeper : ℕ → Step
  deeper d = do_state_transition tc bs (suc (suc d))
