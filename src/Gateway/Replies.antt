-- ===== src/Gateway/Replies.antt =====
-- When a call of a client is answered.
use api_gateway_gtc.Base.{ℕ, ◌<◌, ◌≡◌, refl, ap, arith, true, Option, none, some, List, []}
use api_gateway_gtc.Base.Outcome.{Outcome, ok, throw}
use api_gateway_gtc.Naming
use api_gateway_gtc.Naming.{list_context, NsEntry}
use api_gateway_gtc.Naming.Depth.{Child, Ends, list_context-Ends}
use api_gateway_gtc.Servant.{
  monitor_consumer, alarm_consumer, log_consumer, config_consumer, get_consumer_object,
}
use api_gateway_gtc.ConfigService.Notify.{HasManager, set_property-some}
use api_gateway_gtc.Stream.Served.{
  cancelled, subscribe_monitor-releases, subscribe_alarms-releases, subscribe_logs-releases,
  subscribe_config-releases,
}
use api_gateway_gtc.Base.{c_str}
use api_gateway_gtc.Adapter.Any.{AnyValue, to_corba}
use api_gateway_gtc.ConfigService.{Property}
use api_gateway_gtc.ConfigServer
use api_gateway_gtc.Unary
use api_gateway_gtc.Gateway.{
  GatewayService, Outside, Request, invoke, resolve, list_naming, get_property, set_property,
  subscribe_config, subscribe_monitor, subscribe_alarms, subscribe_logs, plain_end, stream_end,
  handle, listed, written,
}
use api_gateway_gtc.Gateway.Kept.{IsSound, Undisturbed}

-- A stream's call is cancelled in some round.
abbrev pub WillCancel : {Double Float Ref W : Type 0} → Request Double Float Ref W → Type 0
WillCancel (subscribe_config name w rounds) = cancelled rounds ≡ true
WillCancel (subscribe_monitor component magnitude type w rounds) = cancelled rounds ≡ true
WillCancel (subscribe_alarms component w rounds) = cancelled rounds ≡ true
WillCancel (subscribe_logs component w rounds) = cancelled rounds ≡ true
WillCancel _ = Unit {0}

abbrev pub IsSome : {A : Type 0} → Option A → Type 0
IsSome {A} o = (a : A) × (o ≡ some a)

module _ {Ctx Obj Any TypeCode Contained InterfaceDef Double Float Mgr Repo Ref : Type 0}
    (outside : Outside Ctx Obj Any TypeCode Contained InterfaceDef Double Float Mgr Repo Ref)
    (fuel : ℕ) where
  list_naming-IsSome :
      (rank : Ctx → ℕ)
      → ((c d : Ctx) → Child outside.runtime.names c d → rank d < rank c)
      → ((root : Ctx) → outside.runtime.ns.root ≡ some root → rank root < fuel)
      → IsSome (Unary.list_naming outside.runtime fuel)
  unfolding Unary.list_naming Unary.naming_entry Naming.list
  list_naming-IsSome rank falls small = by outside.runtime.ns.root refl
    where
      walked :
          (o : Option (Outcome (Unit {0}) × List NsEntry))
          → Ends o
          → IsSome (Unary.listed outside.runtime o)
      walked none e = absurd (ground arith)
      walked (some (ok u, entries)) e = (_, refl)
      walked (some (throw x, entries)) e = (_, refl)

      by :
          (o : Option Ctx)
          → outside.runtime.ns.root ≡ o
          → IsSome (Unary.list_naming outside.runtime fuel)
      by none q = rw (Unary.list_naming, Naming.list, q) (_, refl)
      by (some root) q =
          rw (Unary.list_naming, Naming.list, q)
            (walked (list_context outside.runtime.names fuel 32 root "" []) (
              list_context-Ends outside.runtime.names rank falls fuel 32 root "" [] (small root q)))

  set_property-IsSome :
      (p : Property (AnyValue Double Float)) (now_usec : ℕ)
      → HasManager outside.config_env outside.config_service
      → IsSome (
          ConfigServer.set_property outside.runtime.corba outside.config_env outside.config_service
            p now_usec)
  unfolding ConfigServer.set_property
  set_property-IsSome p now_usec m =
      let value : Property Any = record {
        name = c_str p.name;
        value = to_corba outside.runtime.corba p.value;
      } in
      let r = set_property-some outside.config_env outside.config_service value now_usec m in
      (_, ap (ConfigServer.set_done outside.runtime.corba outside.config_env) r.1)

  -- In a sound service every call is answered, where the contexts of the name service have a rank
  -- that falls from a context to those bound in it and the fuel exceeds the root, the
  -- configuration service has a manager wherever it has a repository, and a stream has an id left,
  -- is undisturbed and is cancelled in some round.
  pub handle-IsSome :
      {W : Type 0} (rank : Ctx → ℕ) (request : Request Double Float Ref W)
      (g : GatewayService TypeCode Ref W)
      → ((c d : Ctx) → Child outside.runtime.names c d → rank d < rank c)
      → ((root : Ctx) → outside.runtime.ns.root ≡ some root → rank root < fuel)
      → HasManager outside.config_env outside.config_service
      → IsSound outside.runtime.repository g
      → Undisturbed request g
      → WillCancel request
      → IsSome (handle outside fuel request g)
  unfolding handle
  handle-IsSome rank (invoke component method args) g falls small m v u c = (_, refl)
  handle-IsSome rank (resolve component) g falls small m v u c = (_, refl)
  handle-IsSome rank list_naming g falls small m v u c =
      let r = list_naming-IsSome rank falls small in (_, ap (plain_end listed g) r.1)
  handle-IsSome rank (get_property name) g falls small m v u c = (_, refl)
  handle-IsSome rank (set_property p now_usec) g falls small m v u c =
      let r = set_property-IsSome p now_usec m in (_, ap (plain_end written g) r.1)
  handle-IsSome rank (subscribe_config name w rounds) g falls small m v u c =
      let r =
        subscribe_config-releases outside.property_env name
          (get_consumer_object config_consumer g.stream.servant) w rounds g.stream.config v.config
          u.0 u.1 c in
      (_, ap (stream_end (λ p s. record s { config = p }) g) r.1)
  handle-IsSome rank (subscribe_monitor component magnitude type w rounds) g falls small m v u c =
      let r =
        subscribe_monitor-releases outside.monitor_env component magnitude type
          (get_consumer_object monitor_consumer g.stream.servant) w rounds g.stream.monitor
          v.monitor u.0 u.1 c in
      (_, ap (stream_end (λ p s. record s { monitor = p }) g) r.1)
  handle-IsSome rank (subscribe_alarms component w rounds) g falls small m v u c =
      let r =
        subscribe_alarms-releases outside.alarm_env component
          (get_consumer_object alarm_consumer g.stream.servant) w rounds g.stream.alarm v.alarm u.0
          u.1 c in
      (_, ap (stream_end (λ p s. record s { alarm = p }) g) r.1)
  handle-IsSome rank (subscribe_logs component w rounds) g falls small m v u c =
      let r =
        subscribe_logs-releases outside.log_env component
          (get_consumer_object log_consumer g.stream.servant) w rounds g.stream.log v.log u.0 u.1
          c in
      (_, ap (stream_end (λ p s. record s { log = p }) g) r.1)
