-- ===== src/Propagator.antt =====
-- src/SubscriptionPropagator/subscription_propagator.hpp: the class template
-- `SubscriptionPropagator<EventT>`, and the parts that the four propagators share word for word.
pub mod Monitor
pub mod Alarm
pub mod Log
pub mod Config
pub mod Shared
pub mod Ends
pub mod Outcomes
pub mod Sync
pub mod Broadcast
pub mod Race
pub mod Threads
pub mod MonitorRace
use api_gateway_gtc.Base.{
  ℕ, String, ◌++◌, Bool, true, false, Option, none, some, List, [], ◌∷◌, if◌then◌else◌,
}
use api_gateway_gtc.Base.Outcome.{
  Outcome, ok, throw, runtime_error, Exec, bind, pure, swallow_corba, ◌>>◌, ◌>>=◌,
}
use api_gateway_gtc.Naming.{NamingService, NsResolver, resolve}
use api_gateway_gtc.Registry.{Registry, empty, add_entry, remove_entry, has_active_writers}

-- The members: the registry, whether the reference `propagator_` is set, and, for the manager
-- behind it, the calls that it has taken, the latest first.
pub record Propagator (W Call : Type 0) : Type 0 where
  pub registry : Registry W
  pub connected : Bool
  pub accepted : List Call

-- What a method meets outside: the name service, `_narrow` (whether its result is not nil), and
-- the manager's answer to a call.
pub record Env (Ctx Obj Call : Type 0) : Type 0 where
  pub names : NamingService Ctx Obj
  pub ns : NsResolver Ctx
  pub narrow : Obj → Outcome Bool
  pub remote : Call → Outcome (Unit {0})

-- A propagator and its registry as the constructors leave them.
unfoldable pub initial : {W Call : Type 0} → Propagator W Call
unfolding empty
initial = record { registry = empty; connected = false; accepted = [] }

-- `makeTopic`.
unfoldable pub make_topic : String → String → String
make_topic component magnitude = "T:" ++ component ++ ":" ++ magnitude

module _ {W Call : Type 0} where
  -- `narrowCorbaObject`, on what `_narrow` gives, with the message of its exception. The member is
  -- set before it is tested.
  unfoldable pub narrow_corba_object : String → Outcome Bool → Exec (Propagator W Call) (Unit {0})
  narrow_corba_object failure (throw e) p = (throw e, p)
  narrow_corba_object failure (ok false) p =
      (throw (runtime_error failure), record p { connected = false })
  narrow_corba_object failure (ok true) p = (ok tt, record p { connected = true })

  -- `registry_.addEntry`.
  unfoldable pub add : String → W → Exec (Propagator W Call) ℕ
  add key writer p =
      let added = add_entry key writer p.registry in (ok added.1, record p { registry = added.0 })

  -- The end of each `subscribe`: `if (!registry_.hasActiveWriters(key)) corbaSubscribe(..);
  -- return registry_.addEntry(key, writer);`, where `start` is the call of `corbaSubscribe`.
  unfoldable pub subscribe_key :
      String → Exec (Propagator W Call) (Unit {0}) → W → Exec (Propagator W Call) ℕ
  unfolding add
  subscribe_key key start writer p =
      if has_active_writers key p.registry
      then add key writer p
      else bind (start p) (λ _. add key writer)

  -- A call of the manager that has given its answer.
  unfoldable pub answered : Call → Outcome (Unit {0}) → Exec (Propagator W Call) (Unit {0})
  answered call (ok u) p = (ok u, record p { accepted = call ∷ p.accepted })
  answered call (throw e) p = (throw e, p)

module _ {Ctx Obj W Call : Type 0} (env : Env Ctx Obj Call) (ns_name failure : String) where
  -- The rest of `ensureConnected`, on what `ns_.resolve` gives.
  unfoldable pub connect_to : Outcome (Option Obj) → Exec (Propagator W Call) (Unit {0})
  unfolding narrow_corba_object
  connect_to (throw e) p = (throw e, p)
  connect_to (ok none) p =
      (throw (runtime_error ("[SubscriptionPropagator] Not found in NS: " ++ ns_name)), p)
  connect_to (ok (some obj)) p = narrow_corba_object failure (env.narrow obj) p

  unfoldable pub ensure_connected : Exec (Propagator W Call) (Unit {0})
  unfolding connect_to
  ensure_connected p =
      if p.connected then (ok tt, p) else connect_to (resolve env.names env.ns ns_name "") p

module _ {Ctx Obj W Call : Type 0} (env : Env Ctx Obj Call) where
  unfoldable pub corba_call : Call → Exec (Propagator W Call) (Unit {0})
  unfolding answered
  corba_call call = answered call (env.remote call)

  -- The body of each `unsubscribe`; `cancel` is its call of `corbaUnsubscribe`.
  unfoldable pub unsubscribe_id :
      String
      → String
      → Exec (Propagator W Call) (Unit {0})
      → ℕ
      → Exec (Propagator W Call) (Unit {0})
  unfolding ensure_connected
  unsubscribe_id ns_name failure cancel id p =
      let removed = remove_entry id p.registry in
      let p' = record p { registry = removed.0 } in
      if removed.1
      then swallow_corba ((ensure_connected env ns_name failure >> cancel) p')
      else (ok tt, p')
