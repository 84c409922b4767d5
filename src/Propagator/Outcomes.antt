-- ===== src/Propagator/Outcomes.antt =====
-- How the four `subscribe` methods end.
use api_gateway_gtc.Base.{c_str, ℕ, String, ◌≡◌, refl, ◌⊎◌, inl, inr}
use api_gateway_gtc.Base.Outcome.{Outcome, ok, throw, invalid_argument, bind}
use api_gateway_gtc.Registry.Keys.{
  data_block_key, state_change_key, magnitude_change_key, event_key, record_key, property_key,
}
use api_gateway_gtc.Propagator.{Propagator, Env, ensure_connected}
use api_gateway_gtc.Propagator.Shared.{ensure_connected_frame}
use api_gateway_gtc.Propagator.Ends.{Registered, Refused, connected_outcome}
use api_gateway_gtc.Propagator.Monitor.{
  MonitorType, unknown, data_blocks, state_changes, magnitude_changes, unrecognized, MonitorCall,
  subscribe_to_data_blocks, subscribe_to_state_changes, subscribe_to_magnitude_changes, monitor_key,
  corba_subscribe, subscribe, gcs_monitor_name, narrow_failed,
}
use api_gateway_gtc.Propagator.Alarm
use api_gateway_gtc.Propagator.Alarm.{AlarmCall, subscribe_to_alarms}
use api_gateway_gtc.Propagator.Log
use api_gateway_gtc.Propagator.Log.{LogCall, subscribe_to_messages}
use api_gateway_gtc.Propagator.Config
use api_gateway_gtc.Propagator.Config.{ConfigCall, subscribe_to_property_changes}

with_key :
    {W Call : Type 0} {o : Outcome String} (key : String) (w : W) (p : Propagator W Call)
    (r : Outcome ℕ × Propagator W Call)
    → o ≡ ok key
    → Registered key w p r ⊎ Refused p r
    → ((k : String) × (o ≡ ok k) × Registered k w p r) ⊎ Refused p r
with_key key w p r e (inl done) = inl (key, e, done)
with_key key w p r e (inr failed) = inr failed

no_type :
    {W Call : Type 0} (p : Propagator W Call) (o : Outcome (Unit {0}) × Propagator W Call)
    → (o.1.registry ≡ p.registry) × (o.1.accepted ≡ p.accepted)
    → Refused p
        (bind o (λ _ q. (throw (invalid_argument "[MonitorPropagator] MonitorType invalid"), q)))
no_type p (throw e, q) f = (e, refl, f.0)
no_type p (ok u, q) f = (invalid_argument "[MonitorPropagator] MonitorType invalid", refl, f.0)

module _ {Ctx Obj W C : Type 0} (env : Env Ctx Obj (MonitorCall C)) where
  -- `MonitorPropagator::subscribe` either registers the writer under the key of its type and
  -- returns the new id, or throws and leaves the registry as it was.
  pub monitor_subscribe_outcome :
      (component magnitude : String) (type : MonitorType) (consumer : C) (w : W)
      (p : Propagator W (MonitorCall C))
      → ((key : String) × (monitor_key type component magnitude ≡ ok key)
          × Registered key w p (subscribe env component magnitude type consumer w p))
        ⊎ Refused p (subscribe env component magnitude type consumer w p)
  unfolding subscribe monitor_key corba_subscribe
  monitor_subscribe_outcome c m data_blocks r w p =
      with_key _ w p (subscribe env c m data_blocks r w p) refl (
        connected_outcome env gcs_monitor_name narrow_failed (data_block_key c m)
          (subscribe_to_data_blocks (c_str c) (c_str m) r) w p)
  monitor_subscribe_outcome c m state_changes r w p =
      with_key _ w p (subscribe env c m state_changes r w p) refl (
        connected_outcome env gcs_monitor_name narrow_failed (state_change_key c)
          (subscribe_to_state_changes (c_str c) r) w p)
  monitor_subscribe_outcome c m magnitude_changes r w p =
      with_key _ w p (subscribe env c m magnitude_changes r w p) refl (
        connected_outcome env gcs_monitor_name narrow_failed (magnitude_change_key c m)
          (subscribe_to_magnitude_changes (c_str c) (c_str m) r) w p)
  monitor_subscribe_outcome c m unknown r w p = inr (
      no_type p (ensure_connected env gcs_monitor_name narrow_failed p)
        (ensure_connected_frame env gcs_monitor_name narrow_failed p))
  monitor_subscribe_outcome c m (unrecognized n) r w p = inr (
      no_type p (ensure_connected env gcs_monitor_name narrow_failed p)
        (ensure_connected_frame env gcs_monitor_name narrow_failed p))

module _ {Ctx Obj W C : Type 0} where
  -- So for alarms, logs and properties, whose one key each is never refused.
  pub alarm_subscribe_outcome :
      (env : Env Ctx Obj (AlarmCall C)) (component : String) (consumer : C) (w : W)
      (p : Propagator W (AlarmCall C))
      → Registered (event_key component) w p (Alarm.subscribe env component consumer w p)
        ⊎ Refused p (Alarm.subscribe env component consumer w p)
  unfolding Alarm.subscribe Alarm.corba_subscribe
  alarm_subscribe_outcome env component consumer =
      connected_outcome env Alarm.gcs_alarm_name Alarm.narrow_failed (event_key component)
        (subscribe_to_alarms consumer)

  pub log_subscribe_outcome :
      (env : Env Ctx Obj (LogCall C)) (component : String) (consumer : C) (w : W)
      (p : Propagator W (LogCall C))
      → Registered (record_key component) w p (Log.subscribe env component consumer w p)
        ⊎ Refused p (Log.subscribe env component consumer w p)
  unfolding Log.subscribe Log.corba_subscribe
  log_subscribe_outcome env component consumer =
      connected_outcome env Log.gcs_log_name Log.narrow_failed (record_key component)
        (subscribe_to_messages consumer)

  pub config_subscribe_outcome :
      (env : Env Ctx Obj (ConfigCall C)) (property : String) (consumer : C) (w : W)
      (p : Propagator W (ConfigCall C))
      → Registered (property_key property) w p (Config.subscribe env property consumer w p)
        ⊎ Refused p (Config.subscribe env property consumer w p)
  unfolding Config.subscribe Config.corba_subscribe
  config_subscribe_outcome env property consumer =
      connected_outcome env Config.gcs_config_name Config.narrow_failed (property_key property)
        (subscribe_to_property_changes consumer)
