-- ===== src/Runtime/Thread.antt =====
-- The ORB's thread: `OrbThread`, and `CorbaRuntime::runInBackground` and `stop`. What the calls of the
-- ORB and of the thread answer is a parameter.
use api_gateway_gtc.Base.{ℕ, true, List, ◌∷◌, nat_eq, if◌then◌else◌}
use api_gateway_gtc.Base.Outcome.{Outcome, ok, throw, runtime_error, Exec, ◌>>◌}
use api_gateway_gtc.Runtime.{CorbaRuntime}

-- What happens to the ORB and to the server, in the order in which it can happen: the thread runs
-- `orb_->run()`, the server listens and is shut down, the ORB is shut down, the thread has been
-- waited for, the ORB is destroyed.
pub data Event : Type 0 where
  orb_running server_started server_stopped orb_shutdown thread_ended orb_destroyed : Event

-- `activate` of the thread (its result is 0 when the thread runs), `shutdown` and `destroy` of the
-- ORB, and `wait` for the thread.
pub record OrbCalls : Type 0 where
  pub activate : Outcome ℕ
  pub shutdown : Outcome (Unit {0})
  pub wait : Outcome (Unit {0})
  pub destroy : Outcome (Unit {0})

-- The runtime, and what has happened, the latest first.
pub record Process (Ctx Repository Mgr Repo : Type 0) : Type 0 where
  pub runtime : CorbaRuntime Ctx Repository Mgr Repo
  pub events : List Event

module _ {Ctx Repository Mgr Repo : Type 0} where
  -- A call that does something when it returns.
  unfoldable pub happened :
      Event → Outcome (Unit {0}) → Exec (Process Ctx Repository Mgr Repo) (Unit {0})
  happened event (ok u) s = (ok u, record s { events = event ∷ s.events })
  happened event (throw e) s = (throw e, s)

  -- `if (orb_thread_->activate() != 0) throw ..`.
  unfoldable pub activated : Outcome ℕ → Exec (Process Ctx Repository Mgr Repo) (Unit {0})
  unfolding happened
  activated (throw e) s = (throw e, s)
  activated (ok result) s =
      if nat_eq result 0
      then happened orb_running (ok tt) s
      else (throw (runtime_error "CorbaRuntime: could not activate ORB thread"), s)

  module _ (thread : OrbCalls) where
    -- `orb_thread_` is set before the thread is activated.
    unfoldable pub run_in_background : Exec (Process Ctx Repository Mgr Repo) (Unit {0})
    unfolding activated
    run_in_background s =
        activated thread.activate (record s { runtime = record s.runtime { orb_thread = true } })

    -- `if (orb_thread_) orb_thread_->wait();`
    unfoldable pub joined : Exec (Process Ctx Repository Mgr Repo) (Unit {0})
    unfolding happened
    joined s = if s.runtime.orb_thread then happened thread_ended thread.wait s else (ok tt, s)

    unfoldable pub stop : Exec (Process Ctx Repository Mgr Repo) (Unit {0})
    unfolding happened joined
    stop s =
        if s.runtime.orb
        then (happened orb_shutdown thread.shutdown
              >> joined
              >> happened orb_destroyed thread.destroy)
            s
        else (ok tt, s)
