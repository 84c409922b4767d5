-- ===== src/Propagator/Log.antt =====
-- src/SubscriptionPropagator/log_propagator.cpp: the class `LogPropagator`.
use api_gateway_gtc.Base.{ℕ, String}
use api_gateway_gtc.Base.Outcome.{Exec, ◌>>◌}
use api_gateway_gtc.Registry.Keys.{record_key}
use api_gateway_gtc.Propagator.{
  Propagator, Env, ensure_connected, corba_call, subscribe_key, unsubscribe_id,
}

-- The calls of `LOG::Manager_ifce`. They name no component: a consumer gets everything or nothing.
pub data LogCall (C : Type 0) : Type 0 where
  subscribe_to_messages : C → LogCall C
  unsubscribe_to_messages : C → LogCall C

abbrev pub gcs_log_name : String
gcs_log_name = "LogManager"

abbrev pub narrow_failed : String
narrow_failed = "[LogPropagator] Narrow to Manager_ifce failed"

module _ {Ctx Obj W C : Type 0} (env : Env Ctx Obj (LogCall C)) where
  unfoldable pub corba_subscribe : C → Exec (Propagator W (LogCall C)) (Unit {0})
  unfolding corba_call
  corba_subscribe consumer = corba_call env (subscribe_to_messages consumer)

  unfoldable pub corba_unsubscribe : C → Exec (Propagator W (LogCall C)) (Unit {0})
  unfolding corba_call
  corba_unsubscribe consumer = corba_call env (unsubscribe_to_messages consumer)

  unfoldable pub subscribe : String → C → W → Exec (Propagator W (LogCall C)) ℕ
  unfolding ensure_connected subscribe_key corba_subscribe
  subscribe component consumer writer = do
    ensure_connected env gcs_log_name narrow_failed
    subscribe_key (record_key component) (corba_subscribe consumer) writer

  -- The component stands in the log line alone.
  unfoldable pub unsubscribe : ℕ → String → C → Exec (Propagator W (LogCall C)) (Unit {0})
  unfolding unsubscribe_id corba_unsubscribe
  unsubscribe id component consumer =
      unsubscribe_id env gcs_log_name narrow_failed (corba_unsubscribe consumer) id
