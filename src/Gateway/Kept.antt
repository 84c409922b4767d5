-- ===== src/Gateway/Kept.antt =====
-- What every call of a client keeps.
use api_gateway_gtc.Base.{ℕ, ◌+◌, ◌^◌, ◌<◌, Option, none, some, All}
use api_gateway_gtc.Base.Outcome.{Outcome, Status}
use api_gateway_gtc.Registry.Invariant.{IsValid}
use api_gateway_gtc.Ifr.Interfaces.{Faithful}
use api_gateway_gtc.Servant.{
  monitor_consumer, alarm_consumer, log_consumer, config_consumer, get_consumer_object,
}
use api_gateway_gtc.Propagator.{Propagator}
use api_gateway_gtc.Stream.{Stream}
use api_gateway_gtc.Stream.Served.{KeepsValid}
use api_gateway_gtc.Stream.Kept.{
  EndsValid, subscribe_monitor-EndsValid, subscribe_alarms-EndsValid, subscribe_logs-EndsValid,
  subscribe_config-EndsValid,
}
use api_gateway_gtc.Unary.{Runtime, UnaryState}
use api_gateway_gtc.Unary
use api_gateway_gtc.Unary.Escapes.{invoke-Escapes, resolve-Keeps}
use api_gateway_gtc.ConfigServer
use api_gateway_gtc.Ifr.{Repository}
use api_gateway_gtc.Gateway.{
  GatewayService, Outside, Request, invoke, resolve, list_naming, get_property, set_property,
  subscribe_config, subscribe_monitor, subscribe_alarms, subscribe_logs, Reply, Served, plain_end,
  stream_end, handle, listed, written,
}

-- The registries are well formed, and the cache agrees with the interface repository.
pub record IsSound {Contained InterfaceDef TypeCode Ref W : Type 0}
    (repository : Repository Contained InterfaceDef TypeCode) (g : GatewayService TypeCode Ref W)
    : Type 0 where
  pub cached : Faithful repository g.unary.ifr
  pub monitor : IsValid g.stream.monitor.registry
  pub alarm : IsValid g.stream.alarm.registry
  pub log : IsValid g.stream.log.registry
  pub config : IsValid g.stream.config.registry

-- The registry of a stream has an id left, and the other threads keep it well formed.
abbrev pub Undisturbed :
    {Double Float TypeCode Ref W : Type 0}
    → Request Double Float Ref W
    → GatewayService TypeCode Ref W
    → Type 0
Undisturbed (subscribe_config name w rounds) g =
    (g.stream.config.registry.next_id + 1 < 2 ^ 64) × All KeepsValid rounds
Undisturbed (subscribe_monitor component magnitude type w rounds) g =
    (g.stream.monitor.registry.next_id + 1 < 2 ^ 64) × All KeepsValid rounds
Undisturbed (subscribe_alarms component w rounds) g =
    (g.stream.alarm.registry.next_id + 1 < 2 ^ 64) × All KeepsValid rounds
Undisturbed (subscribe_logs component w rounds) g =
    (g.stream.log.registry.next_id + 1 < 2 ^ 64) × All KeepsValid rounds
Undisturbed _ g = Unit {0}

module _ {Double Float TypeCode Ref W : Type 0} where
  -- If the call has ended, the service has the property.
  abbrev pub After :
      (GatewayService TypeCode Ref W → Type 0) → Served Double Float TypeCode Ref W → Type 0
  After P none = Unit {0}
  After P (some (reply, g)) = P g

  plain_end-After :
      {A : Type 0} (P : GatewayService TypeCode Ref W → Type 0)
      (reply : Outcome A → Reply Double Float) (g : GatewayService TypeCode Ref W)
      (o : Option (Outcome A))
      → P g
      → After P (plain_end reply g o)
  plain_end-After P reply g none h = tt
  plain_end-After P reply g (some o) h = h

stream_end-After :
    (Double Float : Type 0) {TypeCode Ref W Call : Type 0}
    (P : GatewayService TypeCode Ref W → Type 0)
    (put : Propagator W Call → Stream Ref W → Stream Ref W) (g : GatewayService TypeCode Ref W)
    (o : Option (Outcome Status × Propagator W Call))
    → EndsValid o
    → ((p : Propagator W Call) → IsValid p.registry → P (record g { stream = put p g.stream }))
    → After {Double = Double} {Float = Float} P (stream_end put g o)
stream_end-After Double Float P put g none v h = tt
stream_end-After Double Float P put g (some (o, p)) v h = h p v

module _ {Ctx Obj Any TypeCode Contained InterfaceDef Double Float Mgr Repo Ref W : Type 0}
    (outside : Outside Ctx Obj Any TypeCode Contained InterfaceDef Double Float Mgr Repo Ref)
    (fuel : ℕ) where
  -- Each call that ends, undisturbed if it is a stream, leaves a sound service sound.
  pub handle-IsSound :
      (request : Request Double Float Ref W) (g : GatewayService TypeCode Ref W)
      → IsSound outside.runtime.repository g
      → Undisturbed request g
      → After (IsSound outside.runtime.repository) (handle outside fuel request g)
  unfolding handle
  handle-IsSound (invoke component method args) g v u = record {
    cached = (invoke-Escapes outside.runtime component method args g.unary v.cached).0;
    monitor = v.monitor;
    alarm = v.alarm;
    log = v.log;
    config = v.config;
  }
  handle-IsSound (resolve component) g v u = record {
    cached = (resolve-Keeps outside.runtime component g.unary v.cached).0;
    monitor = v.monitor;
    alarm = v.alarm;
    log = v.log;
    config = v.config;
  }
  handle-IsSound list_naming g v u =
      plain_end-After (IsSound outside.runtime.repository) listed g
        (Unary.list_naming outside.runtime fuel) v
  handle-IsSound (get_property name) g v u = v
  handle-IsSound (set_property p now_usec) g v u =
      plain_end-After (IsSound outside.runtime.repository) written g
        (ConfigServer.set_property outside.runtime.corba outside.config_env outside.config_service p
          now_usec)
        v
  handle-IsSound (subscribe_config name w rounds) g v u =
      stream_end-After Double Float (IsSound outside.runtime.repository)
        (λ p s. record s { config = p }) g _
        (subscribe_config-EndsValid outside.property_env name
          (get_consumer_object config_consumer g.stream.servant) w rounds g.stream.config v.config
          u.0 u.1)
        (λ p h. record {
          cached = v.cached;
          monitor = v.monitor;
          alarm = v.alarm;
          log = v.log;
          config = h;
        })
  handle-IsSound (subscribe_monitor component magnitude type w rounds) g v u =
      stream_end-After Double Float (IsSound outside.runtime.repository)
        (λ p s. record s { monitor = p }) g _
        (subscribe_monitor-EndsValid outside.monitor_env component magnitude type
          (get_consumer_object monitor_consumer g.stream.servant) w rounds g.stream.monitor
          v.monitor u.0 u.1)
        (λ p h. record {
          cached = v.cached;
          monitor = h;
          alarm = v.alarm;
          log = v.log;
          config = v.config;
        })
  handle-IsSound (subscribe_alarms component w rounds) g v u =
      stream_end-After Double Float (IsSound outside.runtime.repository)
        (λ p s. record s { alarm = p }) g _
        (subscribe_alarms-EndsValid outside.alarm_env component
          (get_consumer_object alarm_consumer g.stream.servant) w rounds g.stream.alarm v.alarm u.0
          u.1)
        (λ p h. record {
          cached = v.cached;
          monitor = v.monitor;
          alarm = h;
          log = v.log;
          config = v.config;
        })
  handle-IsSound (subscribe_logs component w rounds) g v u =
      stream_end-After Double Float (IsSound outside.runtime.repository)
        (λ p s. record s { log = p }) g _
        (subscribe_logs-EndsValid outside.log_env component
          (get_consumer_object log_consumer g.stream.servant) w rounds g.stream.log v.log u.0 u.1)
        (λ p h. record {
          cached = v.cached;
          monitor = v.monitor;
          alarm = v.alarm;
          log = h;
          config = v.config;
        })
