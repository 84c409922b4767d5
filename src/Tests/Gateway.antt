-- ===== src/Tests/Gateway.antt =====
-- The service of the gateway, and runs of `main`.
use api_gateway_gtc.Base.{ℕ, ◌<◌, refl, true, false, some, List, [], ◌∷◌, arith, inr}
use api_gateway_gtc.Base.Outcome.{ok}
use api_gateway_gtc.Naming.Depth.{Child}
use api_gateway_gtc.Registry.{Transport, empty}
use api_gateway_gtc.ConfigService
use api_gateway_gtc.ConfigServer
use api_gateway_gtc.Adapter.Events.{Event, State, Severity, AlarmEvent}
use api_gateway_gtc.Adapter.Any.{TcKind}
use api_gateway_gtc.Stream.{Round}
use api_gateway_gtc.Propagator.{initial}
use api_gateway_gtc.Servant.{construct, blank}
use api_gateway_gtc.Runtime.{Orb}
use api_gateway_gtc.Runtime.Thread.{OrbCalls}
use api_gateway_gtc.Gateway.{
  GatewayService, Outside, subscribe_alarms, get_property, handle, new_service,
}
use api_gateway_gtc.Gateway.Kept.{IsSound}
use api_gateway_gtc.Gateway.Reach.{
  Arrival, alarms, arrive, Reach, start, served, arrived, Reach-IsSound,
}
use api_gateway_gtc.Gateway.Replies.{IsSome, handle-IsSome}
use api_gateway_gtc.Main.{Host, main}
use api_gateway_gtc.Main.Order.{InOrder, main-InOrder}
use api_gateway_gtc.Tests.Data.{willing, one_object}
use api_gateway_gtc.Tests.Orb.{Held}
use api_gateway_gtc.Tests.Corba.{runtime, config, service, repository, no_cache, no_cache-Faithful}
use api_gateway_gtc.Tests.Servant.{adapter}

abbrev outside : Outside ℕ ℕ Held TcKind ℕ ℕ ℕ ℕ ℕ ℕ ℕ
outside = record {
  runtime = runtime;
  config_env = config;
  config_service = service;
  monitor_env = willing;
  alarm_env = willing;
  log_env = willing;
  property_env = willing;
}

abbrev fresh : GatewayService TcKind ℕ ℕ
unfolding initial empty construct blank
fresh = record {
  unary = record { ifr = no_cache; calls = [] };
  stream = record {
    servant = (construct adapter blank).1;
    monitor = initial;
    alarm = initial;
    log = initial;
    config = initial;
  };
}

-- Connections that take every message; the state counts nothing.
abbrev taking : Transport ℕ AlarmEvent (Unit {0})
taking = record { write = λ w x s. (true, tt) }

abbrev alarm : Event
alarm = record {
  name = "hot";
  gcs_component = "MACS";
  new_state = State.active_nacked;
  importance = Severity.level1;
  description = "";
  time_stamp = record { usec = 7 };
  id = 1;
}

-- An alarm arrives at a service that has just been constructed.
after_alarm : Arrival ℕ ℕ ℕ (Unit {0})
after_alarm = alarms taking 9 (alarm ∷ []) tt

-- A client that waits for one round and cancels.
abbrev two_rounds : {P : Type 0} → List (Round P)
two_rounds =
    record { is_cancelled = false; others = λ p. p }
    ∷ record { is_cancelled = true; others = λ p. p }
    ∷ []

fresh-Reach : Reach {W = ℕ} outside 1 no_cache adapter fresh
unfolding new_service initial empty construct blank
fresh-Reach = start refl

fresh-IsSound : IsSound repository fresh
fresh-IsSound = Reach-IsSound outside 1 no_cache adapter no_cache-Faithful fresh-Reach

-- A client has been served, and then an alarm arrives.
Reach-IsSound_example :
    IsSound repository (record fresh { stream = arrive after_alarm fresh.stream })
unfolding handle ConfigServer.get_property ConfigService.get_property
Reach-IsSound_example =
    Reach-IsSound outside 1 no_cache adapter no_cache-Faithful
      (arrived (served fresh-Reach (get_property "MACS.az") tt refl) after_alarm)

no-Child : (c d : ℕ) → Child one_object c d → 0 < 0
no-Child c d (b, obj, r, n) = cc

handle-IsSome_example : IsSome (handle outside 1 (subscribe_alarms "MACS" 10 two_rounds) fresh)
unfolding fresh
handle-IsSome_example =
    handle-IsSome outside 1 (λ c. 0) (subscribe_alarms "MACS" 10 two_rounds) fresh no-Child
      (λ root h. omega arith) (inr (1, refl)) fresh-IsSound
      (omega arith, ((λ p v. v), ((λ p v. v), tt))) refl

-- An ORB that answers.
abbrev orb_up : Orb ℕ ℕ ℕ
orb_up = record {
  orb_init = λ argv. ok true;
  root_poa = ok true;
  activate_manager = ok tt;
  string_to_object = λ url. ok (some 7);
  narrow_context = λ o. ok (some 0);
  narrow_repository = λ o. ok (some 1);
}

abbrev running : OrbCalls
running = record { activate = ok 0; shutdown = ok tt; wait = ok tt; destroy = ok tt }

abbrev up : Host
up = record { server_starts = true; wait_ends = true }

main-InOrder_example :
    InOrder {TypeCode = TcKind} {W = ℕ} orb_up config running adapter up
      (main orb_up config running adapter up)
main-InOrder_example = main-InOrder TcKind ℕ orb_up config running adapter up
