-- ===== src/Consumer.antt =====
-- src/CorbaServant: alarm_consumer.cpp, config_consumer.cpp, log_consumer.cpp and monitor_consumer.cpp,
-- the objects that the managers call with their events. The clock's reading is an argument.
pub mod Delivery
pub mod Subscriber
pub mod Samples
use api_gateway_gtc.Base.{ℕ, String, ◌++◌, Bool, List, [], ◌∷◌}
use api_gateway_gtc.Registry.{Registry, Transport, dispatch}
use api_gateway_gtc.Registry.Keys.{
  data_block_key, state_change_key, magnitude_change_key, event_key, record_key, property_key,
}
use api_gateway_gtc.Adapter.Events.{
  Event, AlarmEvent, from_event, LogRecord, LogEvent, from_record, PropertyChange, ConfigEvent,
  from_property,
}
use api_gateway_gtc.Adapter.Monitor.{
  DataBlock, DataBlockEvent, from_data_block, StateChange, StateChangeEvent, from_state_change,
  MagnitudeChange, MagnitudeChangeEvent, from_magnitude_change,
}

-- The loop of a `receive..` method: each event in order is converted and dispatched under its key.
module _ {E W T S : Type 0} (t : Transport W T S) (key : E → String) (convert : E → T) where
  unfoldable pub dispatch_each : List E → Registry W × S → Registry W × S
  dispatch_each [] state = state
  dispatch_each (event ∷ events) state =
      dispatch_each events (dispatch t (key event) (convert event) state).0

-- The message `MonitorEvent`: one of three, and the time at the gateway.
pub data MonitorPayload (Double Float : Type 0) : Type 0 where
  data_block : DataBlockEvent Double Float → MonitorPayload Double Float
  state_change : StateChangeEvent → MonitorPayload Double Float
  magnitude_change : MagnitudeChangeEvent → MonitorPayload Double Float

pub record MonitorEvent (Double Float : Type 0) : Type 0 where
  pub payload : MonitorPayload Double Float
  pub gateway_ts : ℕ

-- `gcs_component + "." + property_name` of `receivePropertyChanges`.
unfoldable pub full_id : PropertyChange → String
full_id change = change.gcs_component ++ "." ++ change.property_name

module _ {W S : Type 0} where
  unfoldable pub receive_alarms :
      Transport W AlarmEvent S → ℕ → List Event → Registry W × S → Registry W × S
  unfolding dispatch_each
  receive_alarms t gateway_ts =
      dispatch_each t (λ event. event_key event.gcs_component)
        (λ event. from_event event gateway_ts)

  unfoldable pub receive_log_messages :
      Transport W LogEvent S → ℕ → List LogRecord → Registry W × S → Registry W × S
  unfolding dispatch_each
  receive_log_messages t gateway_ts =
      dispatch_each t (λ r. record_key r.gcs_component) (λ r. from_record r gateway_ts)

  unfoldable pub receive_property_changes :
      Transport W ConfigEvent S → ℕ → List PropertyChange → Registry W × S → Registry W × S
  unfolding dispatch_each full_id
  receive_property_changes t gateway_ts =
      dispatch_each t (λ change. property_key (full_id change))
        (λ change. from_property change gateway_ts)

  module _ {Double Float : Type 0} where
    unfoldable pub receive_data_blocks :
        Transport W (MonitorEvent Double Float) S
        → ℕ
        → List (DataBlock Double Float)
        → Registry W × S
        → Registry W × S
    unfolding dispatch_each
    receive_data_blocks t gateway_ts =
        dispatch_each t (λ block. data_block_key block.gcs_component block.magnitude)
          (λ block. record {
            payload = data_block (from_data_block block);
            gateway_ts = gateway_ts;
          })

    unfoldable pub receive_state_changes :
        Transport W (MonitorEvent Double Float) S
        → ℕ
        → List StateChange
        → Registry W × S
        → Registry W × S
    unfolding dispatch_each
    receive_state_changes t gateway_ts =
        dispatch_each t (λ change. state_change_key change.gcs_component)
          (λ change. record {
            payload = state_change (from_state_change change);
            gateway_ts = gateway_ts;
          })

    unfoldable pub receive_magnitude_changes :
        Transport W (MonitorEvent Double Float) S
        → ℕ
        → List MagnitudeChange
        → Registry W × S
        → Registry W × S
    unfolding dispatch_each
    receive_magnitude_changes t gateway_ts =
        dispatch_each t (λ change. magnitude_change_key change.gcs_component change.magnitude)
          (λ change. record {
            payload = magnitude_change (from_magnitude_change change);
            gateway_ts = gateway_ts;
          })
