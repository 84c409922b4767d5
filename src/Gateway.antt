-- ===== src/Gateway.antt =====
-- src/server/gateway_service.cpp and gateway_service.hpp: the class `GatewayService`, which gives
-- each call of a client to one of its three servers.
pub mod Kept
pub mod Reach
pub mod Replies
use api_gateway_gtc.Base.{ℕ, String, Bool, Option, none, some, List, [], ◌∷◌}
use api_gateway_gtc.Base.Outcome.{Outcome, ok, throw, Exec, Status}
use api_gateway_gtc.Ifr.{IfrClient}
use api_gateway_gtc.Servant.{
  Consumer, Poa, monitor_consumer, alarm_consumer, log_consumer, config_consumer,
  get_consumer_object,
}
use api_gateway_gtc.Adapter.Any.{AnyValue}
use api_gateway_gtc.ConfigService.{ConfigService, ConfigEnv, Property}
use api_gateway_gtc.ConfigServer
use api_gateway_gtc.Propagator.{Propagator, Env}
use api_gateway_gtc.Propagator.Monitor.{MonitorType, MonitorCall}
use api_gateway_gtc.Propagator.Alarm.{AlarmCall}
use api_gateway_gtc.Propagator.Log.{LogCall}
use api_gateway_gtc.Propagator.Config.{ConfigCall}
use api_gateway_gtc.Stream
use api_gateway_gtc.Stream.{Stream, Round, new_stream}
use api_gateway_gtc.Unary
use api_gateway_gtc.Unary.{Runtime, UnaryState, InvokeResponse, ComponentInfo, NamingEntry}

-- The members; `Config` and `Unary` hold a reference to the runtime alone, and what `Unary` changes
-- through it is its state here.
pub record GatewayService (TypeCode Ref W : Type 0) : Type 0 where
  pub unary : UnaryState TypeCode
  pub stream : Stream Ref W

-- What the servers meet outside: the parts of the runtime, and the managers of the streams.
pub record Outside (Ctx Obj Any TypeCode Contained InterfaceDef Double Float Mgr Repo Ref : Type 0)
    : Type 0 where
  pub runtime : Runtime Ctx Obj Any TypeCode Contained InterfaceDef Double Float
  pub config_env : ConfigEnv Ctx Obj Mgr Repo Any
  pub config_service : ConfigService Mgr Repo
  pub monitor_env : Env Ctx Obj (MonitorCall (Option Ref))
  pub alarm_env : Env Ctx Obj (AlarmCall (Option Ref))
  pub log_env : Env Ctx Obj (LogCall (Option Ref))
  pub property_env : Env Ctx Obj (ConfigCall (Option Ref))

-- The nine calls with their arguments. A stream also has its writer, and what happens while it
-- waits; a write of a property the time at which it is announced.
pub data Request (Double Float Ref W : Type 0) : Type 0 where
  invoke : String → String → List (AnyValue Double Float) → Request Double Float Ref W
  resolve : String → Request Double Float Ref W
  list_naming : Request Double Float Ref W
  get_property : String → Request Double Float Ref W
  set_property : Property (AnyValue Double Float) → ℕ → Request Double Float Ref W
  subscribe_config :
      String
      → W
      → List (Round (Propagator W (ConfigCall (Option Ref))))
      → Request Double Float Ref W
  subscribe_monitor :
      String
      → String
      → MonitorType
      → W
      → List (Round (Propagator W (MonitorCall (Option Ref))))
      → Request Double Float Ref W
  subscribe_alarms :
      String → W → List (Round (Propagator W (AlarmCall (Option Ref)))) → Request Double Float Ref W
  subscribe_logs :
      String → W → List (Round (Propagator W (LogCall (Option Ref)))) → Request Double Float Ref W

-- How a call ends: with a status and a response, or by an exception.
pub data Reply (Double Float : Type 0) : Type 0 where
  invoked : Outcome (Status × InvokeResponse Double Float) → Reply Double Float
  resolved : Outcome (Status × ComponentInfo) → Reply Double Float
  listed : Outcome (Status × List NamingEntry) → Reply Double Float
  property : Outcome (Status × Option (Property (AnyValue Double Float))) → Reply Double Float
  written : Outcome (Status × Option Bool) → Reply Double Float
  ended : Outcome Status → Reply Double Float

-- The constructor: `unary_(corba), stream_(corba), config_(corba)`.
abbrev pub with_stream :
    {TypeCode Ref W : Type 0}
    → UnaryState TypeCode
    → Outcome (Stream Ref W)
    → Outcome (GatewayService TypeCode Ref W)
with_stream unary (ok stream) = ok (record { unary = unary; stream = stream })
with_stream unary (throw e) = throw e

unfoldable pub new_service :
    {TypeCode Ref W : Type 0}
    → IfrClient TypeCode
    → Poa Ref
    → Outcome (GatewayService TypeCode Ref W)
unfolding new_stream
new_service ifr poa = with_stream (record { ifr = ifr; calls = [] }) (new_stream poa)

-- What a call leaves: its reply with the service after it, or nothing while it goes on.
abbrev pub Served : Type 0 → Type 0 → Type 0 → Type 0 → Type 0 → Type 0
Served Double Float TypeCode Ref W = Option (Reply Double Float × GatewayService TypeCode Ref W)

-- The ends of the calls of the three servers.
module _ {Double Float TypeCode Ref W : Type 0} where
  abbrev pub unary_end :
      {A : Type 0}
      → (Outcome A → Reply Double Float)
      → Exec (UnaryState TypeCode) A
      → GatewayService TypeCode Ref W
      → Served Double Float TypeCode Ref W
  unary_end reply m g = let r = m g.unary in some (reply r.0, record g { unary = r.1 })

  abbrev pub plain_end :
      {A : Type 0}
      → (Outcome A → Reply Double Float)
      → GatewayService TypeCode Ref W
      → Option (Outcome A)
      → Served Double Float TypeCode Ref W
  plain_end reply g none = none
  plain_end reply g (some o) = some (reply o, g)

  abbrev pub stream_end :
      {P : Type 0}
      → (P → Stream Ref W → Stream Ref W)
      → GatewayService TypeCode Ref W
      → Option (Outcome Status × P)
      → Served Double Float TypeCode Ref W
  stream_end put g none = none
  stream_end put g (some (o, p)) = some (ended o, record g { stream = put p g.stream })

module _ {Ctx Obj Any TypeCode Contained InterfaceDef Double Float Mgr Repo Ref W : Type 0}
    (outside : Outside Ctx Obj Any TypeCode Contained InterfaceDef Double Float Mgr Repo Ref)
    (fuel : ℕ) where
  -- The nine methods.
  unfoldable pub handle :
      Request Double Float Ref W
      → GatewayService TypeCode Ref W
      → Served Double Float TypeCode Ref W
  unfolding Unary.invoke Unary.resolve Unary.list_naming ConfigServer.get_property
      ConfigServer.set_property Stream.subscribe_config Stream.subscribe_monitor
      Stream.subscribe_alarms Stream.subscribe_logs get_consumer_object
  handle (invoke component method args) g =
      unary_end invoked (Unary.invoke outside.runtime component method args) g
  handle (resolve component) g = unary_end resolved (Unary.resolve outside.runtime component) g
  handle list_naming g = plain_end listed g (Unary.list_naming outside.runtime fuel)
  handle (get_property name) g = plain_end property g (
      some (
        ConfigServer.get_property outside.runtime.corba outside.config_env outside.config_service
          name))
  handle (set_property p now_usec) g = plain_end written g (
      ConfigServer.set_property outside.runtime.corba outside.config_env outside.config_service p
        now_usec)
  handle (subscribe_config name writer rounds) g =
      stream_end (λ p s. record s { config = p }) g
        (Stream.subscribe_config outside.property_env name
          (get_consumer_object config_consumer g.stream.servant) writer rounds g.stream.config)
  handle (subscribe_monitor component magnitude type writer rounds) g =
      stream_end (λ p s. record s { monitor = p }) g
        (Stream.subscribe_monitor outside.monitor_env component magnitude type
          (get_consumer_object monitor_consumer g.stream.servant) writer rounds g.stream.monitor)
  handle (subscribe_alarms component writer rounds) g =
      stream_end (λ p s. record s { alarm = p }) g
        (Stream.subscribe_alarms outside.alarm_env component
          (get_consumer_object alarm_consumer g.stream.servant) writer rounds g.stream.alarm)
  handle (subscribe_logs component writer rounds) g =
      stream_end (λ p s. record s { log = p }) g
        (Stream.subscribe_logs outside.log_env component
          (get_consumer_object log_consumer g.stream.servant) writer rounds g.stream.log)
