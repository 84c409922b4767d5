-- ===== src/Tests/Propagator.antt =====
-- The propagators with managers that are found and take every call.
use api_gateway_gtc.Base.{c_str, ℕ, String, ◌≡◌, ◌⊎◌, refl, true, false, [], ◌∷◌, arith}
use api_gateway_gtc.Base.Outcome.{ok}
use api_gateway_gtc.Registry.{has_active_writers, add_entry, find, any_active, assign, empty}
use api_gateway_gtc.Registry.Keys.{data_block_key, event_key}
use api_gateway_gtc.Registry.Invariant.{IsValid}
use api_gateway_gtc.Propagator.{
  Propagator, ensure_connected, connect_to, narrow_corba_object, subscribe_key, corba_call,
  answered, add,
}
use api_gateway_gtc.Naming.{resolve, build_name, segments}
use api_gateway_gtc.Propagator.Shared.{latest}
use api_gateway_gtc.Propagator.Ends.{Registered, Refused}
use api_gateway_gtc.Propagator.Monitor
use api_gateway_gtc.Propagator.Monitor.{
  MonitorCall, subscribe_to_data_blocks, data_blocks, monitor_key,
}
use api_gateway_gtc.Propagator.Alarm
use api_gateway_gtc.Propagator.Alarm.{AlarmCall, unsubscribe_to_alarms, subscribe_to_alarms}
use api_gateway_gtc.Propagator.Sync.{protocol, fresh, here, next, subscribes, Reach-synced}
use api_gateway_gtc.Propagator.Outcomes.{monitor_subscribe_outcome}
use api_gateway_gtc.Propagator.Broadcast.{LastOfTwo, alarm_unsubscribe_silences}
use api_gateway_gtc.Propagator.Threads.{Turns, finished}
use api_gateway_gtc.Propagator.MonitorRace.{new_client_unserved, subscribing, unsubscribing}
use api_gateway_gtc.Tests.Data.{
  client, two_clients, two_clients-IsValid, willing, connected, eq_absurd, consumer,
}

abbrev start : Propagator ℕ (MonitorCall ℕ)
start = fresh ℕ ℕ ℕ ℕ ℕ ℕ

-- The state after one client has subscribed.
abbrev one_subscribed : Propagator ℕ (MonitorCall ℕ)
one_subscribed = (Monitor.subscribe willing "MACS" "position" data_blocks consumer 10 start).1

Reach-synced_example :
    latest protocol (data_block_key "MACS" "position") one_subscribed.accepted ≡ true
unfolding fresh empty Monitor.subscribe monitor_key has_active_writers any_active ensure_connected
    connect_to narrow_corba_object subscribe_key Monitor.corba_subscribe corba_call answered add
    add_entry resolve build_name segments assign data_block_key c_str
Reach-synced_example =
    Reach-synced ℕ ℕ ℕ ℕ ℕ ℕ {q = one_subscribed} (data_block_key "MACS" "position")
      (next here (
        subscribes willing "MACS" "position" data_blocks consumer 10 (refl, refl) (omega arith)
          refl))
      refl

monitor_subscribe_outcome_example :
    ((key : String) × (monitor_key data_blocks "MACS" "position" ≡ ok key)
      × Registered key 10 start
          (Monitor.subscribe willing "MACS" "position" data_blocks consumer 10 start))
    ⊎ Refused start (Monitor.subscribe willing "MACS" "position" data_blocks consumer 10 start)
monitor_subscribe_outcome_example =
    monitor_subscribe_outcome willing "MACS" "position" data_blocks consumer 10 start

two_clients-LastOfTwo :
    (key other : String) → ((key ≡ other) → ⊥) → LastOfTwo (two_clients key other) key other 0
unfolding find
two_clients-LastOfTwo key other differ = record {
  valid = two_clients-IsValid key other;
  mine = (client key 10, refl, refl, refl);
  alone = λ j ne s. differ (ground (arith, s.1, s.3));
  theirs = (1, (client other 11, refl, refl, refl));
  differ = differ;
}

alarm_unsubscribe_silences_example :
    let q =
      (Alarm.unsubscribe willing 0 "MACS" consumer
        (connected (two_clients (event_key "MACS") (event_key "ECS")) [])).1 in
    (q.accepted ≡ unsubscribe_to_alarms consumer ∷ [])
    × (has_active_writers (event_key "ECS") q.registry ≡ true)
unfolding event_key
alarm_unsubscribe_silences_example =
    alarm_unsubscribe_silences willing 0 "MACS" "ECS" consumer
      (connected (two_clients (event_key "MACS") (event_key "ECS")) [])
      (two_clients-LastOfTwo (event_key "MACS") (event_key "ECS") (eq_absurd _ _ refl)) refl refl

-- One client of a topic and none of any other.
abbrev one_client : Propagator ℕ (MonitorCall ℕ)
one_client = connected (record { entries = (0, client "D:MACS:position" 10) ∷ []; next_id = 1 }) []

one_client-IsValid : IsValid one_client.registry
one_client-IsValid = record {
  ascending = (omega arith, tt);
  below = (omega arith, tt);
  ranged = omega arith;
}

new_client_unserved_example :
    (q : Propagator ℕ (MonitorCall ℕ)) × Turns
      (record {
        left = unsubscribing willing "MACS" "position" consumer 0;
        right = subscribing willing "MACS" "position" consumer 11;
        state = one_client;
      })
      (record { left = finished; right = finished; state = q })
    × (has_active_writers (data_block_key "MACS" "position") q.registry ≡ true)
    × (latest protocol (data_block_key "MACS" "position") q.accepted ≡ false)
unfolding find data_block_key c_str
new_client_unserved_example =
    new_client_unserved willing "MACS" "position" consumer 0 11 one_client refl refl refl
      one_client-IsValid (client "D:MACS:position" 10, refl, refl, refl)
      (λ j ne s. ne (ground (arith, s.1)))
