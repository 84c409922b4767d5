-- ===== src/Propagator/Threads.antt =====
-- Two threads on a shared state, one step of one of them at a time.
use api_gateway_gtc.Base.{◌≡◌}

-- A thread's rest: nothing, or a step that changes the shared state at once, and the rest that
-- depends on the state before it.
pub data Thread (S : Type 0) : Type 0 where
  finished : Thread S
  act : (S → S) → (S → Thread S) → Thread S

pub record Threads (S : Type 0) : Type 0 where
  pub left : Thread S
  pub right : Thread S
  pub state : S

module _ {S : Type 0} where
  -- A thread that runs with no other.
  unfoldable pub run_alone : Thread S → S → S
  run_alone finished s = s
  run_alone (act f k) s = run_alone (k s) (f s)

  -- One of the two threads takes its next step.
  pub data Turn (c : Threads S) : Threads S → Type 0 where
    left_turn :
        (f : S → S) (k : S → Thread S)
        → c.left ≡ act f k
        → Turn c (record { left = k c.state; right = c.right; state = f c.state })
    right_turn :
        (f : S → S) (k : S → Thread S)
        → c.right ≡ act f k
        → Turn c (record { left = c.left; right = k c.state; state = f c.state })

  -- From the first to the second by any number of turns.
  pub data Turns : Threads S → Threads S → Type 0 where
    stop : {c : Threads S} → Turns c c
    turn : {c d e : Threads S} → Turn c d → Turns d e → Turns c e

  -- The two kinds of turns, with what the thread and the state become worked out.
  pub Turn-left :
      (c : Threads S) (f : S → S) (k : S → Thread S) (t : Thread S) (s : S)
      → c.left ≡ act f k
      → k c.state ≡ t
      → f c.state ≡ s
      → Turn c (record { left = t; right = c.right; state = s })
  Turn-left c f k t s e ek es = rw (← ek, ← es) (left_turn f k e)

  pub Turn-right :
      (c : Threads S) (f : S → S) (k : S → Thread S) (t : Thread S) (s : S)
      → c.right ≡ act f k
      → k c.state ≡ t
      → f c.state ≡ s
      → Turn c (record { left = c.left; right = t; state = s })
  Turn-right c f k t s e ek es = rw (← ek, ← es) (right_turn f k e)
