-- ===== src/Propagator/Config.antt =====
-- src/SubscriptionPropagator/config_propagator.cpp: the class `ConfigPropagator`.
use api_gateway_gtc.Base.{ℕ, String}
use api_gateway_gtc.Base.Outcome.{Exec, ◌>>◌}
use api_gateway_gtc.Registry.Keys.{property_key}
use api_gateway_gtc.Propagator.{
  Propagator, Env, ensure_connected, corba_call, subscribe_key, unsubscribe_id,
}

-- The calls of `CONFIG::Manager_ifce`. They name no property: a consumer gets everything or nothing.
pub data ConfigCall (C : Type 0) : Type 0 where
  subscribe_to_property_changes : C → ConfigCall C
  unsubscribe_to_property_changes : C → ConfigCall C

abbrev pub gcs_config_name : String
gcs_config_name = "ConfigManager"

abbrev pub narrow_failed : String
narrow_failed = "[ConfigPropagator] Narrow to Manager_ifce failed"

module _ {Ctx Obj W C : Type 0} (env : Env Ctx Obj (ConfigCall C)) where
  unfoldable pub corba_subscribe : C → Exec (Propagator W (ConfigCall C)) (Unit {0})
  unfolding corba_call
  corba_subscribe consumer = corba_call env (subscribe_to_property_changes consumer)

  unfoldable pub corba_unsubscribe : C → Exec (Propagator W (ConfigCall C)) (Unit {0})
  unfolding corba_call
  corba_unsubscribe consumer = corba_call env (unsubscribe_to_property_changes consumer)

  unfoldable pub subscribe : String → C → W → Exec (Propagator W (ConfigCall C)) ℕ
  unfolding ensure_connected subscribe_key corba_subscribe
  subscribe property consumer writer = do
    ensure_connected env gcs_config_name narrow_failed
    subscribe_key (property_key property) (corba_subscribe consumer) writer

  -- The property stands in the log line alone.
  unfoldable pub unsubscribe : ℕ → String → C → Exec (Propagator W (ConfigCall C)) (Unit {0})
  unfolding unsubscribe_id corba_unsubscribe
  unsubscribe id property consumer =
      unsubscribe_id env gcs_config_name narrow_failed (corba_unsubscribe consumer) id
