-- ===== src/Client/Team/Balance.antt =====
-- The clients of a worker between two transitions.
use upcalls.Prelude.{
  ℕ, suc, ◌+◌, ◌*◌, ◌<◌, ◌≡◌, refl, Bool, true, false, ◌||◌, List, [], ◌∷◌, arith, length, get_or,
  negsuc,
}
use upcalls.Client.{
  State, idle, connecting, new, ready, sent, finished, Client, World, Run, returns, waits, Pause,
}
use upcalls.Client.Io.Unfinished.{IsPause}
use upcalls.Client.Sane.{IsSane, Sane, Rests, dead, not_alive}
use upcalls.Client.Team.{
  Team, fresh_client, Event, Wake, events, Ended, over, timed_out, open_socks,
}
use upcalls.Client.Team.Sum.{sum_left}

-- A client between two transitions.
pub record IsClient (tc bs : ℕ) (died : Bool) (c : Client) : Type 0 where
  pub sane : IsSane tc bs died c.state c
  pub shut : died ≡ false → c.state ≡ finished → c.sock ≡ negsuc 0

-- The `j`th client.
abbrev pub nth : ℕ → ℕ → Team → ℕ → Client
nth tc bs t j = get_or t.clients j (fresh_client tc bs 0)

-- Every client is consistent, and what is completed and what is left make up the total.
pub record IsTeam (tc bs n : ℕ) (t : Team) : Type 0 where
  pub count : length t.clients ≡ n
  pub each : (j : ℕ) → j < n → IsClient tc bs t.dying (get_or t.clients j (fresh_client tc bs 0))
  pub balance : t.complete + sum_left t.clients ≡ tc * n

-- The events are about clients that exist.
abbrev pub Within : ℕ → List Event → Type 0
Within n [] = Unit {0}
Within n ((j, _) ∷ es) = (j < n) × Within n es

abbrev pub WakeWithin : ℕ → Wake → Type 0
WakeWithin n (events k es) = Within n es
WakeWithin n _ = Unit {0}

abbrev pub WakesWithin : ℕ → List Wake → Type 0
WakesWithin n [] = Unit {0}
WakesWithin n (wk ∷ wks) = WakeWithin n wk × WakesWithin n wks

-- A team that is still one, or a client whose results are used up.
pub data Stays (tc bs n : ℕ) : Run Team → Type 0 where
  stays : {t : Team} → IsTeam tc bs n t → Stays tc bs n (returns t)
  stuck : (p : Pause) → IsPause p → Stays tc bs n (waits p)

-- How a worker ends.
pub data Finished (tc bs n : ℕ) : Run Ended → Type 0 where
  all_done :
      {t : Team}
      → t.dying ≡ false
      → t.complete ≡ tc * n
      → length t.clients ≡ n
      → ((j : ℕ)
          → j < n
          → ((nth tc bs t j).state ≡ finished)
            × ((nth tc bs t j).txn_remaining ≡ 0)
            × ((nth tc bs t j).sock ≡ negsuc 0))
      → open_socks t.clients ≡ []
      → Finished tc bs n (returns (over t))
  gave_up : {t : Team} → t.dying ≡ true → IsTeam tc bs n t → Finished tc bs n (returns (over t))
  no_event : Finished tc bs n (returns timed_out)
  goes_on : (p : Pause) → IsPause p → Finished tc bs n (waits p)

-- `cleanup` finds nothing to close.
pub open_socks_nil :
    (cs : List Client) (d : Client)
    → ((j : ℕ) → j < length cs → (get_or cs j d).sock ≡ negsuc 0)
    → open_socks cs ≡ []
unfolding open_socks
open_socks_nil [] d h = refl
open_socks_nil (c ∷ cs) d h =
    rw (h 0 (omega arith)) (open_socks_nil cs d λ j l. h (suc j) (omega arith))

module _ {tc bs : ℕ} where
  client_true : {died : Bool} (c : Client) → IsClient tc bs died c → IsClient tc bs true c
  client_true c v = record { sane = dead v.sane; shut = λ h. not_alive h }

  pub client_dead :
      (died d : Bool) (c : Client) → IsClient tc bs died c → IsClient tc bs (died || d) c
  client_dead true true c v = v
  client_dead true false c v = v
  client_dead false true c v = client_true c v
  client_dead false false c v = v

  pub rest_dead :
      (died : Bool) (w : World) → Rests tc bs w → IsClient tc bs (died || w.dying) w.client
  rest_dead true w r = client_true w.client (record { sane = r.sane; shut = r.shut })
  rest_dead false w r = record { sane = r.sane; shut = r.shut }

  pub team_dead :
      {n : ℕ} (d : Bool) (t : Team)
      → IsTeam tc bs n t
      → IsTeam tc bs n (record t { dying = t.dying || d })
  team_dead d t v = record {
    count = v.count;
    each = λ j h. client_dead t.dying d _ (v.each j h);
    balance = v.balance;
  }

  pub team_dead_now :
      {n : ℕ} (t : Team) → IsTeam tc bs n t → IsTeam tc bs n (record t { dying = true })
  team_dead_now t v = record {
    count = v.count;
    each = λ j h. client_true _ (v.each j h);
    balance = v.balance;
  }

  pub finished_of :
      (s : State) {died : Bool} {cursor buf txn batch : ℕ}
      → Sane tc bs died s cursor buf txn batch
      → txn ≡ 0
      → s ≡ finished
  finished_of idle v e = ground arith
  finished_of connecting v e = ground arith
  finished_of new v e = ground arith
  finished_of ready v e = ground arith
  finished_of sent v e = ground arith
  finished_of finished v e = refl
