-- ===== src/Propagator/Alarm.antt =====
-- src/SubscriptionPropagator/alarm_propagator.cpp: the class `AlarmPropagator`.
use api_gateway_gtc.Base.{ℕ, String}
use api_gateway_gtc.Base.Outcome.{Exec, ◌>>◌}
use api_gateway_gtc.Registry.Keys.{event_key}
use api_gateway_gtc.Propagator.{
  Propagator, Env, ensure_connected, corba_call, subscribe_key, unsubscribe_id,
}

-- The calls of `ALARM::Manager_ifce`. They name no component: a consumer gets everything or nothing.
pub data AlarmCall (C : Type 0) : Type 0 where
  subscribe_to_alarms : C → AlarmCall C
  unsubscribe_to_alarms : C → AlarmCall C

abbrev pub gcs_alarm_name : String
gcs_alarm_name = "AlarmManager"

abbrev pub narrow_failed : String
narrow_failed = "[AlarmPropagator] Narrow to Manager_ifce failed"

module _ {Ctx Obj W C : Type 0} (env : Env Ctx Obj (AlarmCall C)) where
  unfoldable pub corba_subscribe : C → Exec (Propagator W (AlarmCall C)) (Unit {0})
  unfolding corba_call
  corba_subscribe consumer = corba_call env (subscribe_to_alarms consumer)

  unfoldable pub corba_unsubscribe : C → Exec (Propagator W (AlarmCall C)) (Unit {0})
  unfolding corba_call
  corba_unsubscribe consumer = corba_call env (unsubscribe_to_alarms consumer)

  unfoldable pub subscribe : String → C → W → Exec (Propagator W (AlarmCall C)) ℕ
  unfolding ensure_connected subscribe_key corba_subscribe
  subscribe component consumer writer = do
    ensure_connected env gcs_alarm_name narrow_failed
    subscribe_key (event_key component) (corba_subscribe consumer) writer

  -- The component stands in the log line alone.
  unfoldable pub unsubscribe : ℕ → String → C → Exec (Propagator W (AlarmCall C)) (Unit {0})
  unfolding unsubscribe_id corba_unsubscribe
  unsubscribe id component consumer =
      unsubscribe_id env gcs_alarm_name narrow_failed (corba_unsubscribe consumer) id
