-- ===== src/Tests/Consumer.antt =====
-- Alarms, blocks of samples and the change of a property, delivered to the clients.
use api_gateway_gtc.Base.{ℕ, String, ◌≡◌, refl, nat_eq, [], ◌∷◌}
use api_gateway_gtc.Registry.{has_active_writers, add_entry}
use api_gateway_gtc.Naming.{resolve, segments}
use api_gateway_gtc.Registry.Keys.{event_key}
use api_gateway_gtc.Adapter.Events.{Event, State, Severity, from_event}
use api_gateway_gtc.Consumer.{receive_alarms}
use api_gateway_gtc.Consumer.Delivery.{recorder}
use api_gateway_gtc.Propagator.Config
use api_gateway_gtc.Registry.Keys.{property_key}
use api_gateway_gtc.Consumer.{receive_property_changes}
use api_gateway_gtc.ConfigService.{property_change}
use api_gateway_gtc.ConfigService.Split.{no_dot}
use api_gateway_gtc.ConfigService.Announced.{receive_property_changes-announced}
use api_gateway_gtc.Adapter.Events.{from_property}
use api_gateway_gtc.Propagator.Monitor
use api_gateway_gtc.Propagator.Monitor.{data_blocks}
use api_gateway_gtc.Registry.Keys.{data_block_key, no_colon}
use api_gateway_gtc.Adapter.Monitor.{DataBlock, from_data_block, longs}
use api_gateway_gtc.Consumer.{receive_data_blocks, data_block, MonitorEvent}
use api_gateway_gtc.Consumer.Samples.{receive_data_blocks-subscribe}
use api_gateway_gtc.Tests.Data.{
  three_clients, three_clients-IsValid, willing, unconnected, consumer,
}
use api_gateway_gtc.Propagator.Alarm
use api_gateway_gtc.Consumer.Subscriber.{received, receive_alarms-subscribe}

abbrev alarm_of : String → Event
alarm_of gcs_component = record {
  name = "over";
  gcs_component = gcs_component;
  new_state = State.active_nacked;
  importance = Severity.level2;
  description = "";
  time_stamp = record { usec = 7 };
  id = 1;
}

-- A new client of MACS gets the alarm of MACS alone.
receive_alarms-subscribe_example :
    let after = Alarm.subscribe willing "MACS" consumer 20 (unconnected three_clients) in
    received
      (nat_eq 20)
      (receive_alarms recorder 9 (alarm_of "ECS" ∷ alarm_of "MACS" ∷ []) (after.1.registry, [])).1
    ≡ from_event (alarm_of "MACS") 9 ∷ []
unfolding Alarm.subscribe resolve segments has_active_writers event_key add_entry
receive_alarms-subscribe_example =
    receive_alarms-subscribe (nat_eq 20) willing "MACS" consumer 20 (unconnected three_clients) 3 9
      (alarm_of "ECS" ∷ alarm_of "MACS" ∷ []) refl (refl, (refl, (refl, tt))) three_clients-IsValid
      refl

-- A new client of a property hears that it has been set.
receive_property_changes-announced_example :
    let after = Config.subscribe willing "MACS.az" consumer 20 (unconnected three_clients) in
    let change = property_change "MACS.az" 7 in
    received
      (nat_eq 20)
      (receive_property_changes recorder 9 (change ∷ []) (after.1.registry, [])).1
    ≡ from_property change 9 ∷ []
unfolding Config.subscribe resolve segments has_active_writers property_key add_entry no_dot
receive_property_changes-announced_example =
    receive_property_changes-announced (nat_eq 20) willing "MACS.az" consumer 20
      (unconnected three_clients) 3 9 7 "MACS.az" refl (refl, (refl, (refl, tt)))
      three_clients-IsValid refl

abbrev block_of : String → DataBlock ℕ ℕ
block_of magnitude = record {
  id = 1;
  gcs_component = "MACS";
  magnitude = magnitude;
  time_stamp = record { usec = 7 };
  samples = longs (record { time_stamp = record { usec = 7 }; value = 5 } ∷ []);
}

abbrev position_event : MonitorEvent ℕ ℕ
position_event = record {
  payload = data_block (from_data_block (block_of "position"));
  gateway_ts = 9;
}

-- A new client of one magnitude gets the block of that alone.
receive_data_blocks-subscribe_example :
    let after =
      Monitor.subscribe willing "MACS" "position" data_blocks consumer 20
        (unconnected three_clients) in
    received
      (nat_eq 20)
      (receive_data_blocks recorder 9
        (block_of "speed" ∷ block_of "position" ∷ [])
        (after.1.registry, [])).1
    ≡ position_event ∷ []
unfolding no_colon Monitor.subscribe resolve segments has_active_writers add_entry data_block_key
receive_data_blocks-subscribe_example =
    receive_data_blocks-subscribe (nat_eq 20) willing "MACS" "position" consumer 20
      (unconnected three_clients) 3 9 (block_of "speed" ∷ block_of "position" ∷ []) refl
      (refl, (refl, (refl, tt))) three_clients-IsValid refl (refl, (refl, tt)) refl
