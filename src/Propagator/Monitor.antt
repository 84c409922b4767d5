-- ===== src/Propagator/Monitor.antt =====
-- src/SubscriptionPropagator/monitor_propagator.cpp: the class `MonitorPropagator`.
use api_gateway_gtc.Base.{ℕ, String, c_str}
use api_gateway_gtc.Base.Outcome.{
  Outcome, ok, throw, invalid_argument, Exec, pure, lift, ◌>>◌, ◌>>=◌,
}
use api_gateway_gtc.Registry.Keys.{data_block_key, state_change_key, magnitude_change_key}
use api_gateway_gtc.Propagator.{
  Propagator, Env, ensure_connected, corba_call, subscribe_key, unsubscribe_id,
}

-- `gateway::MonitorType`. A proto3 enum is open: `unrecognized` is any other number.
pub data MonitorType : Type 0 where
  unknown data_blocks state_changes magnitude_changes : MonitorType
  unrecognized : ℕ → MonitorType

-- The calls of `MM::MonitorPropagator_ifce`; `C` are the consumers' references.
pub data MonitorCall (C : Type 0) : Type 0 where
  subscribe_to_data_blocks : String → String → C → MonitorCall C
  subscribe_to_state_changes : String → C → MonitorCall C
  subscribe_to_magnitude_changes : String → String → C → MonitorCall C
  unsubscribe_to_data_blocks : String → String → C → MonitorCall C
  unsubscribe_to_state_changes : String → C → MonitorCall C
  unsubscribe_to_magnitude_changes : String → String → C → MonitorCall C

abbrev pub gcs_monitor_name : String
gcs_monitor_name = "MonitorManagers/MM1"

abbrev pub narrow_failed : String
narrow_failed = "[MonitorPropagator] Narrow to MonitorPropagator_ifce failed"

-- The `switch` of `subscribe`.
unfoldable pub monitor_key : MonitorType → String → String → Outcome String
monitor_key data_blocks component magnitude = ok (data_block_key component magnitude)
monitor_key state_changes component magnitude = ok (state_change_key component)
monitor_key magnitude_changes component magnitude = ok (magnitude_change_key component magnitude)
monitor_key unknown component magnitude =
    throw (invalid_argument "[MonitorPropagator] MonitorType invalid")
monitor_key (unrecognized n) component magnitude =
    throw (invalid_argument "[MonitorPropagator] MonitorType invalid")

module _ {Ctx Obj W C : Type 0} (env : Env Ctx Obj (MonitorCall C)) where
  -- The manager sees the names as C reads them.
  unfoldable pub corba_subscribe :
      MonitorType → String → String → C → Exec (Propagator W (MonitorCall C)) (Unit {0})
  unfolding corba_call c_str
  corba_subscribe data_blocks component magnitude consumer =
      corba_call env (subscribe_to_data_blocks (c_str component) (c_str magnitude) consumer)
  corba_subscribe state_changes component magnitude consumer =
      corba_call env (subscribe_to_state_changes (c_str component) consumer)
  corba_subscribe magnitude_changes component magnitude consumer =
      corba_call env (subscribe_to_magnitude_changes (c_str component) (c_str magnitude) consumer)
  corba_subscribe unknown component magnitude consumer = pure tt
  corba_subscribe (unrecognized n) component magnitude consumer = pure tt

  unfoldable pub corba_unsubscribe :
      MonitorType → String → String → C → Exec (Propagator W (MonitorCall C)) (Unit {0})
  unfolding corba_call c_str
  corba_unsubscribe data_blocks component magnitude consumer =
      corba_call env (unsubscribe_to_data_blocks (c_str component) (c_str magnitude) consumer)
  corba_unsubscribe state_changes component magnitude consumer =
      corba_call env (unsubscribe_to_state_changes (c_str component) consumer)
  corba_unsubscribe magnitude_changes component magnitude consumer =
      corba_call env (unsubscribe_to_magnitude_changes (c_str component) (c_str magnitude) consumer)
  corba_unsubscribe unknown component magnitude consumer = pure tt
  corba_unsubscribe (unrecognized n) component magnitude consumer = pure tt

  unfoldable pub subscribe :
      String → String → MonitorType → C → W → Exec (Propagator W (MonitorCall C)) ℕ
  unfolding ensure_connected monitor_key subscribe_key corba_subscribe
  subscribe component magnitude type consumer writer = do
    ensure_connected env gcs_monitor_name narrow_failed
    key ← lift (monitor_key type component magnitude)
    subscribe_key key (corba_subscribe type component magnitude consumer) writer

  unfoldable pub unsubscribe :
      ℕ → String → String → MonitorType → C → Exec (Propagator W (MonitorCall C)) (Unit {0})
  unfolding unsubscribe_id corba_unsubscribe
  unsubscribe id component magnitude type consumer =
      unsubscribe_id env gcs_monitor_name narrow_failed
        (corba_unsubscribe type component magnitude consumer) id
