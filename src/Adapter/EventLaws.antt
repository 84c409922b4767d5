-- ===== src/Adapter/EventLaws.antt =====
-- What the events of the alarm, log and configuration managers keep of what they were made from.
use api_gateway_gtc.Base.{ℕ, ◌*◌, ◌^◌, ◌<◌, ◌≡◌, ◌≢◌, arith}
use api_gateway_gtc.Adapter.Events.{
  from_time_value, State, Severity, state_doesnt_care, severity_doesnt_care, from_state,
  from_severity, Event, from_event, LogType, log_doesnt_care, from_type, LogRecord, from_record,
  PropertyChange, from_property,
}
use api_gateway_gtc.Adapter.Monitor.{StateChange, from_state_change}

from_state_injective :
    (s t : State) → from_state s ≢ state_doesnt_care → from_state s ≡ from_state t → s ≡ t
unfolding from_state
from_state_injective s t h e = ground arith

from_severity_injective :
    (s t : Severity)
    → from_severity s ≢ severity_doesnt_care
    → from_severity s ≡ from_severity t
    → s ≡ t
unfolding from_severity
from_severity_injective s t h e = ground arith

-- Two alarms that a client sees with the same state and severity, neither of them DOESNT_CARE,
-- have the same state and severity at the alarm manager.
pub from_event-reflects :
    (a b : Event) (ts us : ℕ)
    → (from_event a ts).state ≡ (from_event b us).state
    → (from_event a ts).severity ≡ (from_event b us).severity
    → (from_event a ts).state ≢ state_doesnt_care
    → (from_event a ts).severity ≢ severity_doesnt_care
    → (a.new_state ≡ b.new_state) × (a.importance ≡ b.importance)
unfolding from_event
from_event-reflects a b ts us es ev hs hv = (
  from_state_injective a.new_state b.new_state hs es,
  from_severity_injective a.importance b.importance hv ev,
)

-- So for the type of a log message.
pub from_type_injective :
    (s t : LogType) → from_type s ≢ log_doesnt_care → from_type s ≡ from_type t → s ≡ t
unfolding from_type
from_type_injective s t h e = ground arith

-- An alarm, a log record, a property change and a state change of one instant after 0, with no
-- overflow, do not get one time stamp: the first three are 1000 times the last.
pub time_stamps_differ :
    (a : Event) (r : LogRecord) (c : PropertyChange) (s : StateChange) (ts : ℕ)
    → r.time_stamp ≡ a.time_stamp
    → c.time_stamp ≡ a.time_stamp
    → s.time_stamp ≡ a.time_stamp
    → 0 < a.time_stamp.usec
    → a.time_stamp.usec * 1000 < 2 ^ 63
    → ((from_event a ts).time_stamp ≡ 1000 * (from_state_change s).time_stamp)
      × ((from_record r ts).time_stamp ≡ 1000 * (from_state_change s).time_stamp)
      × ((from_property c ts).time_stamp ≡ 1000 * (from_state_change s).time_stamp)
      × ((from_event a ts).time_stamp ≢ (from_state_change s).time_stamp)
unfolding from_event from_record from_property from_state_change from_time_value
time_stamps_differ a r c s ts er ec es pos small =
    (ground arith, ground arith, ground arith, ground arith)
