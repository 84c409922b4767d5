-- ===== src/Adapter/Events.antt =====
-- src/adapter/alarm_adapter.cpp, log_adapter.cpp and config_adapter.cpp: the events of the alarm,
-- log and configuration managers, as the messages of server/proto/stream.proto.
use api_gateway_gtc.Base.{ℕ, ◌*◌, ◌%◌, ◌^◌, String}

-- `DGT::TimeValue`; `usec` is a 64-bit pattern.
pub record TimeValue : Type 0 where
  pub usec : ℕ

-- `static_cast<int64_t>(time_value.usec) * 1000LL` of the three adapters. (C++ leaves an overflow
-- undefined; here it wraps.)
unfoldable pub from_time_value : TimeValue → ℕ
from_time_value t = (t.usec * 1000) % 2 ^ 64

-- `ALARM::State_t`; `state_other` is any other of its values.
pub data State : Type 0 where
  active_nacked active_acked inactive_nacked inactive_acked solved ack : State
  state_other : ℕ → State

-- `ALARM::Severity_t`.
pub data Severity : Type 0 where
  level1 level2 level3 level4 level5 : Severity
  severity_other : ℕ → Severity

-- `gateway::AlarmState`.
pub data AlarmState : Type 0 where
  state_doesnt_care active_nacked active_acked inactive_nacked inactive_acked solved ack :
      AlarmState

-- `gateway::AlarmSeverity`.
pub data AlarmSeverity : Type 0 where
  severity_doesnt_care level1 level2 level3 level4 level5 : AlarmSeverity

-- `ALARM::Event`.
pub record Event : Type 0 where
  pub name : String
  pub gcs_component : String
  pub new_state : State
  pub importance : Severity
  pub description : String
  pub time_stamp : TimeValue
  pub id : ℕ

pub record AlarmEvent : Type 0 where
  pub alarm_name : String
  pub component_name : String
  pub state : AlarmState
  pub severity : AlarmSeverity
  pub description : String
  pub time_stamp : ℕ
  pub id : ℕ
  pub gateway_ts : ℕ

unfoldable pub from_state : State → AlarmState
from_state State.active_nacked = AlarmState.active_nacked
from_state State.active_acked = AlarmState.active_acked
from_state State.inactive_nacked = AlarmState.inactive_nacked
from_state State.inactive_acked = AlarmState.inactive_acked
from_state State.solved = AlarmState.solved
from_state State.ack = AlarmState.ack
from_state (state_other n) = state_doesnt_care

unfoldable pub from_severity : Severity → AlarmSeverity
from_severity Severity.level1 = AlarmSeverity.level1
from_severity Severity.level2 = AlarmSeverity.level2
from_severity Severity.level3 = AlarmSeverity.level3
from_severity Severity.level4 = AlarmSeverity.level4
from_severity Severity.level5 = AlarmSeverity.level5
from_severity (severity_other n) = severity_doesnt_care

-- `AlarmAdapter::fromEvent`.
unfoldable pub from_event : Event → ℕ → AlarmEvent
unfolding from_state from_severity from_time_value
from_event event gateway_ts = record {
  alarm_name = event.name;
  component_name = event.gcs_component;
  state = from_state event.new_state;
  severity = from_severity event.importance;
  description = event.description;
  time_stamp = from_time_value event.time_stamp;
  id = event.id;
  gateway_ts = gateway_ts;
}

-- `LOG::MessageType`.
pub data LogType : Type 0 where
  debug info error_type : LogType
  log_other : ℕ → LogType

-- `gateway::MessageType`.
pub data MessageType : Type 0 where
  log_doesnt_care debug info error_type : MessageType

-- `LOG::Record`.
pub record LogRecord : Type 0 where
  pub gcs_component : String
  pub host_ip_address : ℕ
  pub source : String
  pub type : LogType
  pub time_stamp : TimeValue
  pub msg_data : String

pub record LogEvent : Type 0 where
  pub component_name : String
  pub host_ip_address : ℕ
  pub source_code : String
  pub type : MessageType
  pub time_stamp : ℕ
  pub msg_data : String
  pub gateway_ts : ℕ

unfoldable pub from_type : LogType → MessageType
from_type LogType.debug = MessageType.debug
from_type LogType.info = MessageType.info
from_type LogType.error_type = MessageType.error_type
from_type (log_other n) = log_doesnt_care

-- `LogAdapter::fromRecord`; the address is cut to 32 bits.
unfoldable pub from_record : LogRecord → ℕ → LogEvent
unfolding from_type from_time_value
from_record r gateway_ts = record {
  component_name = r.gcs_component;
  host_ip_address = r.host_ip_address % 2 ^ 32;
  source_code = r.source;
  type = from_type r.type;
  time_stamp = from_time_value r.time_stamp;
  msg_data = r.msg_data;
  gateway_ts = gateway_ts;
}

-- `CONFIG::PropertyChange`.
pub record PropertyChange : Type 0 where
  pub gcs_component : String
  pub property_name : String
  pub time_stamp : TimeValue

pub record ConfigEvent : Type 0 where
  pub component_name : String
  pub property_name : String
  pub time_stamp : ℕ
  pub gateway_ts : ℕ

-- `ConfigAdapter::fromProperty`.
unfoldable pub from_property : PropertyChange → ℕ → ConfigEvent
unfolding from_time_value
from_property change gateway_ts = record {
  component_name = change.gcs_component;
  property_name = change.property_name;
  time_stamp = from_time_value change.time_stamp;
  gateway_ts = gateway_ts;
}
