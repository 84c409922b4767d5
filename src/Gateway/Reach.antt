-- ===== src/Gateway/Reach.antt =====
-- The service from its constructor on, under calls of clients and events of the managers.
use api_gateway_gtc.Base.{ℕ, ◌≡◌, subst, some, List, []}
use api_gateway_gtc.Base.Outcome.{Outcome, ok, throw}
use api_gateway_gtc.Registry.{Registry, Transport}
use api_gateway_gtc.Registry.Invariant.{empty-IsValid}
use api_gateway_gtc.Ifr.{IfrClient}
use api_gateway_gtc.Ifr.Interfaces.{Faithful}
use api_gateway_gtc.Servant.{Poa, CorbaServant, construct, blank}
use api_gateway_gtc.Adapter.Events.{
  Event, AlarmEvent, LogRecord, LogEvent, PropertyChange, ConfigEvent,
}
use api_gateway_gtc.Adapter.Monitor.{DataBlock, StateChange, MagnitudeChange}
use api_gateway_gtc.Consumer.{
  MonitorEvent, receive_alarms, receive_log_messages, receive_property_changes, receive_data_blocks,
  receive_state_changes, receive_magnitude_changes,
}
use api_gateway_gtc.Consumer.Delivery.{dispatch_each-IsValid}
use api_gateway_gtc.Propagator.{Propagator, initial}
use api_gateway_gtc.Stream.{Stream, new_stream, around}
use api_gateway_gtc.Gateway.{
  GatewayService, Outside, Request, Reply, handle, new_service, with_stream,
}
use api_gateway_gtc.Gateway.Kept.{IsSound, Undisturbed, After, handle-IsSound}

-- A call of a manager on one of the consumers that the servant has activated: the events, the time
-- at the gateway, and the clients' connections.
pub data Arrival (Double Float W S : Type 0) : Type 0 where
  data_blocks :
      Transport W (MonitorEvent Double Float) S
      → ℕ
      → List (DataBlock Double Float)
      → S
      → Arrival Double Float W S
  state_changes :
      Transport W (MonitorEvent Double Float) S
      → ℕ
      → List StateChange
      → S
      → Arrival Double Float W S
  magnitude_changes :
      Transport W (MonitorEvent Double Float) S
      → ℕ
      → List MagnitudeChange
      → S
      → Arrival Double Float W S
  alarms : Transport W AlarmEvent S → ℕ → List Event → S → Arrival Double Float W S
  messages : Transport W LogEvent S → ℕ → List LogRecord → S → Arrival Double Float W S
  changes : Transport W ConfigEvent S → ℕ → List PropertyChange → S → Arrival Double Float W S

-- A propagator whose registry a consumer has used; the consumers hold references to the registries
-- that the propagators use.
abbrev pub used : {W Call : Type 0} → Propagator W Call → Registry W → Propagator W Call
used p r = record p { registry = r }

-- What the arrival changes in the stream server.
unfoldable pub arrive :
    {Double Float W S Ref : Type 0} → Arrival Double Float W S → Stream Ref W → Stream Ref W
unfolding receive_alarms receive_log_messages receive_property_changes receive_data_blocks
    receive_state_changes receive_magnitude_changes
arrive (data_blocks t ts blocks s) st = record st {
  monitor = used st.monitor (receive_data_blocks t ts blocks (st.monitor.registry, s)).0;
}
arrive (state_changes t ts changed s) st = record st {
  monitor = used st.monitor (receive_state_changes t ts changed (st.monitor.registry, s)).0;
}
arrive (magnitude_changes t ts changed s) st = record st {
  monitor = used st.monitor (receive_magnitude_changes t ts changed (st.monitor.registry, s)).0;
}
arrive (alarms t ts events s) st = record st {
  alarm = used st.alarm (receive_alarms t ts events (st.alarm.registry, s)).0;
}
arrive (messages t ts records s) st = record st {
  log = used st.log (receive_log_messages t ts records (st.log.registry, s)).0;
}
arrive (changes t ts changed s) st = record st {
  config = used st.config (receive_property_changes t ts changed (st.config.registry, s)).0;
}

module _ {Ctx Obj Any TypeCode Contained InterfaceDef Double Float Mgr Repo Ref W : Type 0}
    (outside : Outside Ctx Obj Any TypeCode Contained InterfaceDef Double Float Mgr Repo Ref)
    (fuel : ℕ) (ifr : IfrClient TypeCode) (poa : Poa Ref) where
  -- The constructor, then calls that end and events that arrive, in any order.
  pub data Reach : GatewayService TypeCode Ref W → Type 1 where
    start : {g : GatewayService TypeCode Ref W} → new_service ifr poa ≡ ok g → Reach g
    served :
        {g h : GatewayService TypeCode Ref W} {reply : Reply Double Float}
        → Reach g
        → (request : Request Double Float Ref W) → Undisturbed request g
        → handle outside fuel request g ≡ some (reply, h)
        → Reach h
    arrived :
        {g : GatewayService TypeCode Ref W} {S : Type 0}
        → Reach g
        → (arrival : Arrival Double Float W S)
        → Reach (record g { stream = arrive arrival g.stream })

  started-IsSound :
      (o : Outcome (Unit {0}) × CorbaServant Ref) (g : GatewayService TypeCode Ref W)
      → with_stream (record { ifr = ifr; calls = [] }) (around o) ≡ ok g
      → Faithful outside.runtime.repository ifr
      → IsSound outside.runtime.repository g
  unfolding initial
  started-IsSound (throw e, s) g h v = cc
  started-IsSound (ok u, s) g h v =
      let stream : Stream Ref W = record {
        servant = s;
        monitor = initial;
        alarm = initial;
        log = initial;
        config = initial;
      } in
      let g0 : GatewayService TypeCode Ref W = record {
        unary = record { ifr = ifr; calls = [] };
        stream = stream;
      } in
      let same : g0 ≡ g = cc in
      subst (IsSound outside.runtime.repository) same (record {
        cached = v;
        monitor = empty-IsValid;
        alarm = empty-IsValid;
        log = empty-IsValid;
        config = empty-IsValid;
      })

  arrived-IsSound :
      {S : Type 0} (arrival : Arrival Double Float W S) (g : GatewayService TypeCode Ref W)
      → IsSound outside.runtime.repository g
      → IsSound outside.runtime.repository (record g { stream = arrive arrival g.stream })
  unfolding arrive
  arrived-IsSound (data_blocks t ts blocks s) g v = record {
    cached = v.cached;
    monitor = dispatch_each-IsValid t _ _ blocks g.stream.monitor.registry s v.monitor;
    alarm = v.alarm;
    log = v.log;
    config = v.config;
  }
  arrived-IsSound (state_changes t ts changed s) g v = record {
    cached = v.cached;
    monitor = dispatch_each-IsValid t _ _ changed g.stream.monitor.registry s v.monitor;
    alarm = v.alarm;
    log = v.log;
    config = v.config;
  }
  arrived-IsSound (magnitude_changes t ts changed s) g v = record {
    cached = v.cached;
    monitor = dispatch_each-IsValid t _ _ changed g.stream.monitor.registry s v.monitor;
    alarm = v.alarm;
    log = v.log;
    config = v.config;
  }
  arrived-IsSound (alarms t ts events s) g v = record {
    cached = v.cached;
    monitor = v.monitor;
    alarm = dispatch_each-IsValid t _ _ events g.stream.alarm.registry s v.alarm;
    log = v.log;
    config = v.config;
  }
  arrived-IsSound (messages t ts records s) g v = record {
    cached = v.cached;
    monitor = v.monitor;
    alarm = v.alarm;
    log = dispatch_each-IsValid t _ _ records g.stream.log.registry s v.log;
    config = v.config;
  }
  arrived-IsSound (changes t ts changed s) g v = record {
    cached = v.cached;
    monitor = v.monitor;
    alarm = v.alarm;
    log = v.log;
    config = dispatch_each-IsValid t _ _ changed g.stream.config.registry s v.config;
  }

  -- If the interface cache agrees with the repository at first, then after the constructor and any
  -- sequence of calls that end, each stream with an id left and undisturbed by other threads in
  -- the well-formedness of its registry, and of events from the managers, the four registries are
  -- well formed and the cache agrees with the repository.
  pub Reach-IsSound :
      {g : GatewayService TypeCode Ref W}
      → Faithful outside.runtime.repository ifr
      → Reach g
      → IsSound outside.runtime.repository g
  unfolding new_service new_stream
  Reach-IsSound v (start {g} e) = started-IsSound (construct poa blank) g e v
  Reach-IsSound v (served {g} {h} {reply} r request u e) =
      subst (After (IsSound outside.runtime.repository)) e
        (handle-IsSound outside fuel request g (Reach-IsSound v r) u)
  Reach-IsSound v (arrived {g} r arrival) = arrived-IsSound arrival g (Reach-IsSound v r)
