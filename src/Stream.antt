-- ===== src/Stream.antt =====
-- src/server/stream_server.cpp and stream_server.hpp: the class `Stream`, whose four methods serve one client each until
-- it goes away. A status other than `OK` never comes back: what `subscribe` throws passes through.
pub mod Served
pub mod Kept
pub mod Handlers
use api_gateway_gtc.Base.{
  ℕ, String, Bool, true, false, not, ◌&&◌, Option, none, some, List, [], ◌∷◌,
}
use api_gateway_gtc.Base.Outcome.{Outcome, ok, throw, Exec, Status, status_ok}
use api_gateway_gtc.Registry.{is_active}
use api_gateway_gtc.Servant.{CorbaServant, Poa, blank, construct}
use api_gateway_gtc.Propagator.{Propagator, Env, initial}
use api_gateway_gtc.Propagator.Monitor
use api_gateway_gtc.Propagator.Monitor.{MonitorType, MonitorCall}
use api_gateway_gtc.Propagator.Alarm
use api_gateway_gtc.Propagator.Alarm.{AlarmCall}
use api_gateway_gtc.Propagator.Log
use api_gateway_gtc.Propagator.Log.{LogCall}
use api_gateway_gtc.Propagator.Config
use api_gateway_gtc.Propagator.Config.{ConfigCall}

-- The members: the servant and, with the registry of each, the four propagators. `W` are the
-- clients' writers, `Ref` the references to the consumers.
pub record Stream (Ref W : Type 0) : Type 0 where
  pub servant : CorbaServant Ref
  pub monitor : Propagator W (MonitorCall (Option Ref))
  pub alarm : Propagator W (AlarmCall (Option Ref))
  pub log : Propagator W (LogCall (Option Ref))
  pub config : Propagator W (ConfigCall (Option Ref))

-- The constructor. It constructs the servant first, and an exception of that passes through.
abbrev pub around :
    {Ref W : Type 0} → Outcome (Unit {0}) × CorbaServant Ref → Outcome (Stream Ref W)
unfolding initial
around (throw e, servant) = throw e
around (ok u, servant) = ok (record {
  servant = servant;
  monitor = initial;
  alarm = initial;
  log = initial;
  config = initial;
})

unfoldable pub new_stream : {Ref W : Type 0} → Poa Ref → Outcome (Stream Ref W)
unfolding construct blank
new_stream poa = around (construct poa blank)

-- One turn of the waiting loop: what `IsCancelled` says at the test, and what the other threads do
-- to the propagator while this one sleeps.
pub record Round (P : Type 0) : Type 0 where
  pub is_cancelled : Bool
  pub others : P → P

module _ {W Call : Type 0} where
  -- `while (!context->IsCancelled() && registry.isActive(id)) sleep`, over the rounds to come;
  -- `none` when the loop still waits after the last of them.
  unfoldable pub wait :
      ℕ → List (Round (Propagator W Call)) → Propagator W Call → Option (Propagator W Call)
  wait id [] p = none
  wait id (round ∷ rounds) p = elim (not round.is_cancelled && is_active id p.registry) [
    | true ↦ wait id rounds (round.others p)
    | false ↦ some p
  ]

  abbrev pub with_status :
      Outcome (Unit {0}) × Propagator W Call → Outcome Status × Propagator W Call
  with_status (ok u, p) = (ok status_ok, p)
  with_status (throw e, p) = (throw e, p)

  unfoldable pub released :
      Exec (Propagator W Call) (Unit {0})
      → Option (Propagator W Call)
      → Option (Outcome Status × Propagator W Call)
  released unsubscribe none = none
  released unsubscribe (some p) = some (with_status (unsubscribe p))

  -- The rest of a method after `subscribe`.
  unfoldable pub serve :
      (ℕ → Exec (Propagator W Call) (Unit {0}))
      → List (Round (Propagator W Call))
      → Outcome ℕ × Propagator W Call
      → Option (Outcome Status × Propagator W Call)
  unfolding wait released
  serve unsubscribe rounds (throw e, p) = some (throw e, p)
  serve unsubscribe rounds (ok id, p) = released (unsubscribe id) (wait id rounds p)

module _ {Ctx Obj W C : Type 0} where
  unfoldable pub subscribe_monitor :
      Env Ctx Obj (MonitorCall C)
      → String
      → String
      → MonitorType
      → C
      → W
      → List (Round (Propagator W (MonitorCall C)))
      → Propagator W (MonitorCall C)
      → Option (Outcome Status × Propagator W (MonitorCall C))
  unfolding serve Monitor.subscribe Monitor.unsubscribe
  subscribe_monitor env component magnitude type consumer writer rounds p =
      serve (λ id. Monitor.unsubscribe env id component magnitude type consumer) rounds
        (Monitor.subscribe env component magnitude type consumer writer p)

  unfoldable pub subscribe_alarms :
      Env Ctx Obj (AlarmCall C)
      → String
      → C
      → W
      → List (Round (Propagator W (AlarmCall C)))
      → Propagator W (AlarmCall C)
      → Option (Outcome Status × Propagator W (AlarmCall C))
  unfolding serve Alarm.subscribe Alarm.unsubscribe
  subscribe_alarms env component consumer writer rounds p =
      serve (λ id. Alarm.unsubscribe env id component consumer) rounds
        (Alarm.subscribe env component consumer writer p)

  unfoldable pub subscribe_logs :
      Env Ctx Obj (LogCall C)
      → String
      → C
      → W
      → List (Round (Propagator W (LogCall C)))
      → Propagator W (LogCall C)
      → Option (Outcome Status × Propagator W (LogCall C))
  unfolding serve Log.subscribe Log.unsubscribe
  subscribe_logs env component consumer writer rounds p =
      serve (λ id. Log.unsubscribe env id component consumer) rounds
        (Log.subscribe env component consumer writer p)

  unfoldable pub subscribe_config :
      Env Ctx Obj (ConfigCall C)
      → String
      → C
      → W
      → List (Round (Propagator W (ConfigCall C)))
      → Propagator W (ConfigCall C)
      → Option (Outcome Status × Propagator W (ConfigCall C))
  unfolding serve Config.subscribe Config.unsubscribe
  subscribe_config env property consumer writer rounds p =
      serve (λ id. Config.unsubscribe env id property consumer) rounds
        (Config.subscribe env property consumer writer p)
