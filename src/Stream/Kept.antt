-- ===== src/Stream/Kept.antt =====
-- What a client's stream leaves behind.
use api_gateway_gtc.Base.{
  ℕ, ◌+◌, ◌^◌, ◌<◌, String, ◌≡◌, ◌⊎◌, inl, inr, Bool, true, false, not, ◌&&◌, Option, none, some,
  List, [], ◌∷◌, All,
}
use api_gateway_gtc.Base.Outcome.{Outcome, ok, throw, Exec, Status}
use api_gateway_gtc.Registry.{is_active, remove_entry}
use api_gateway_gtc.Registry.Invariant.{IsValid, add_entry-IsValid, remove_entry-IsValid}
use api_gateway_gtc.Registry.Keys.{event_key, record_key, property_key}
use api_gateway_gtc.Propagator.{Propagator, Env}
use api_gateway_gtc.Propagator.Ends.{Registered, Refused}
use api_gateway_gtc.Propagator.Shared.{registry-unsubscribe_id}
use api_gateway_gtc.Propagator.Outcomes.{
  monitor_subscribe_outcome, alarm_subscribe_outcome, log_subscribe_outcome,
  config_subscribe_outcome,
}
use api_gateway_gtc.Propagator.Monitor
use api_gateway_gtc.Propagator.Monitor.{MonitorType, MonitorCall}
use api_gateway_gtc.Propagator.Alarm
use api_gateway_gtc.Propagator.Alarm.{AlarmCall, unsubscribe_to_alarms}
use api_gateway_gtc.Propagator.Log
use api_gateway_gtc.Propagator.Log.{LogCall, unsubscribe_to_messages}
use api_gateway_gtc.Propagator.Config
use api_gateway_gtc.Propagator.Config.{ConfigCall, unsubscribe_to_property_changes}
use api_gateway_gtc.Stream.{
  Round, wait, released, serve, subscribe_monitor, subscribe_alarms, subscribe_logs,
  subscribe_config,
}
use api_gateway_gtc.Stream.Served.{KeepsValid, with_status-registry, registry-monitor_unsubscribe}

module _ {W Call : Type 0} where
  -- If the stream has ended, the registry is well formed.
  abbrev pub EndsValid : Option (Outcome Status × Propagator W Call) → Type 0
  EndsValid none = Unit {0}
  EndsValid (some r) = IsValid r.1.registry

  released-EndsValid :
      (unsubscribe : ℕ → Exec (Propagator W Call) (Unit {0})) (id : ℕ) (p : Propagator W Call)
      → ((id : ℕ) (q : Propagator W Call)
          → (unsubscribe id q).1.registry ≡ (remove_entry id q.registry).0)
      → IsValid p.registry
      → EndsValid (released (unsubscribe id) (some p))
  unfolding released
  released-EndsValid unsubscribe id p un v =
      rw (with_status-registry (unsubscribe id p), un id p) (remove_entry-IsValid id p.registry v)

  wait-EndsValid :
      (unsubscribe : ℕ → Exec (Propagator W Call) (Unit {0})) (id : ℕ)
      (rounds : List (Round (Propagator W Call))) (p : Propagator W Call)
      → ((id : ℕ) (q : Propagator W Call)
          → (unsubscribe id q).1.registry ≡ (remove_entry id q.registry).0)
      → IsValid p.registry
      → All KeepsValid rounds
      → EndsValid (released (unsubscribe id) (wait id rounds p))
  unfolding wait released
  wait-EndsValid unsubscribe id [] p un v keep = tt
  wait-EndsValid unsubscribe id (round ∷ rounds) p un v keep =
      by (not round.is_cancelled && is_active id p.registry)
        (wait-EndsValid unsubscribe id rounds (round.others p) un (keep.0 p v) keep.1)
    where
      by :
          (go : Bool)
          → EndsValid (released (unsubscribe id) (wait id rounds (round.others p)))
          → EndsValid (
              released
                (unsubscribe id)
                (elim go [ true ↦ wait id rounds (round.others p) | false ↦ some p ]))
      by true ih = ih
      by false ih = released-EndsValid unsubscribe id p un v

  started-IsValid :
      (start : Outcome ℕ × Propagator W Call) (key : String) (w : W) (p : Propagator W Call)
      → Registered key w p start ⊎ Refused p start
      → IsValid p.registry
      → p.registry.next_id + 1 < 2 ^ 64
      → IsValid start.1.registry
  started-IsValid start key w p (inl done) v room =
      rw done.1 (add_entry-IsValid key w p.registry v room)
  started-IsValid start key w p (inr failed) v room = rw failed.2 v

  pub serve-EndsValid :
      (unsubscribe : ℕ → Exec (Propagator W Call) (Unit {0}))
      (rounds : List (Round (Propagator W Call))) (start : Outcome ℕ × Propagator W Call)
      → ((id : ℕ) (q : Propagator W Call)
          → (unsubscribe id q).1.registry ≡ (remove_entry id q.registry).0)
      → IsValid start.1.registry
      → All KeepsValid rounds
      → EndsValid (serve unsubscribe rounds start)
  unfolding serve
  serve-EndsValid unsubscribe rounds (throw e, q) un v keep = v
  serve-EndsValid unsubscribe rounds (ok id, q) un v keep =
      wait-EndsValid unsubscribe id rounds q un v keep

module _ {Ctx Obj W C : Type 0} where
  pub subscribe_monitor-EndsValid :
      (env : Env Ctx Obj (MonitorCall C)) (component magnitude : String) (type : MonitorType)
      (consumer : C) (w : W) (rounds : List (Round (Propagator W (MonitorCall C))))
      (p : Propagator W (MonitorCall C))
      → IsValid p.registry
      → p.registry.next_id + 1 < 2 ^ 64
      → All KeepsValid rounds
      → EndsValid (subscribe_monitor env component magnitude type consumer w rounds p)
  unfolding subscribe_monitor
  subscribe_monitor-EndsValid env c m type consumer w rounds p v room keep =
      serve-EndsValid (λ id. Monitor.unsubscribe env id c m type consumer) rounds
        (Monitor.subscribe env c m type consumer w p)
        (λ id q. registry-monitor_unsubscribe env id c m type consumer q)
        (started (monitor_subscribe_outcome env c m type consumer w p)) keep
    where
      start : Outcome ℕ × Propagator W (MonitorCall C)
      start = Monitor.subscribe env c m type consumer w p

      started :
          ((key : String) × (Monitor.monitor_key type c m ≡ ok key) × Registered key w p start)
            ⊎ Refused p start
          → IsValid start.1.registry
      started (inl (key, e, done)) = started-IsValid start key w p (inl done) v room
      started (inr failed) = started-IsValid start "" w p (inr failed) v room

  pub subscribe_alarms-EndsValid :
      (env : Env Ctx Obj (AlarmCall C)) (component : String) (consumer : C) (w : W)
      (rounds : List (Round (Propagator W (AlarmCall C)))) (p : Propagator W (AlarmCall C))
      → IsValid p.registry
      → p.registry.next_id + 1 < 2 ^ 64
      → All KeepsValid rounds
      → EndsValid (subscribe_alarms env component consumer w rounds p)
  unfolding subscribe_alarms Alarm.unsubscribe Alarm.corba_unsubscribe
  subscribe_alarms-EndsValid env component consumer w rounds p v room keep =
      serve-EndsValid (λ id. Alarm.unsubscribe env id component consumer) rounds
        (Alarm.subscribe env component consumer w p)
        (λ id q.
          registry-unsubscribe_id env Alarm.gcs_alarm_name Alarm.narrow_failed
            (unsubscribe_to_alarms consumer) id q)
        (started-IsValid (Alarm.subscribe env component consumer w p) (event_key component) w p
          (alarm_subscribe_outcome env component consumer w p) v room)
        keep

  pub subscribe_logs-EndsValid :
      (env : Env Ctx Obj (LogCall C)) (component : String) (consumer : C) (w : W)
      (rounds : List (Round (Propagator W (LogCall C)))) (p : Propagator W (LogCall C))
      → IsValid p.registry
      → p.registry.next_id + 1 < 2 ^ 64
      → All KeepsValid rounds
      → EndsValid (subscribe_logs env component consumer w rounds p)
  unfolding subscribe_logs Log.unsubscribe Log.corba_unsubscribe
  subscribe_logs-EndsValid env component consumer w rounds p v room keep =
      serve-EndsValid (λ id. Log.unsubscribe env id component consumer) rounds
        (Log.subscribe env component consumer w p)
        (λ id q.
          registry-unsubscribe_id env Log.gcs_log_name Log.narrow_failed
            (unsubscribe_to_messages consumer) id q)
        (started-IsValid (Log.subscribe env component consumer w p) (record_key component) w p
          (log_subscribe_outcome env component consumer w p) v room)
        keep

  pub subscribe_config-EndsValid :
      (env : Env Ctx Obj (ConfigCall C)) (property : String) (consumer : C) (w : W)
      (rounds : List (Round (Propagator W (ConfigCall C)))) (p : Propagator W (ConfigCall C))
      → IsValid p.registry
      → p.registry.next_id + 1 < 2 ^ 64
      → All KeepsValid rounds
      → EndsValid (subscribe_config env property consumer w rounds p)
  unfolding subscribe_config Config.unsubscribe Config.corba_unsubscribe
  subscribe_config-EndsValid env property consumer w rounds p v room keep =
      serve-EndsValid (λ id. Config.unsubscribe env id property consumer) rounds
        (Config.subscribe env property consumer w p)
        (λ id q.
          registry-unsubscribe_id env Config.gcs_config_name Config.narrow_failed
            (unsubscribe_to_property_changes consumer) id q)
        (started-IsValid (Config.subscribe env property consumer w p) (property_key property) w p
          (config_subscribe_outcome env property consumer w p) v room)
        keep
