-- ===== src/Stream/Served.antt =====
-- How a client's stream ends.
use api_gateway_gtc.Base.{
  c_str, ℕ, ◌+◌, ◌^◌, ◌<◌, String, ◌≡◌, ◌⊎◌, inl, inr, refl, ap, ◌∙◌, Bool, true, false, not, ◌&&◌,
  none, some, List, [], ◌∷◌, All, if◌then◌else◌, arith, Bool-cases,
}
use api_gateway_gtc.Base.Outcome.{Outcome, ok, throw, Exec, pure, Status}
use api_gateway_gtc.Registry.{is_active, remove_entry}
use api_gateway_gtc.Registry.Invariant.{IsValid, add_entry-IsValid, find_next}
use api_gateway_gtc.Registry.View.{entry, entry-remove_entry}
use api_gateway_gtc.Propagator.{Propagator, Env}
use api_gateway_gtc.Propagator.Shared.{registry-unsubscribe_id, registry-unsubscribe_with}
use api_gateway_gtc.Propagator.Ends.{Registered, Refused}
use api_gateway_gtc.Propagator.Outcomes.{
  monitor_subscribe_outcome, alarm_subscribe_outcome, log_subscribe_outcome,
  config_subscribe_outcome,
}
use api_gateway_gtc.Registry.Keys.{event_key, record_key, property_key}
use api_gateway_gtc.Propagator.Monitor
use api_gateway_gtc.Propagator.Monitor.{
  MonitorType, unknown, data_blocks, state_changes, magnitude_changes, unrecognized, MonitorCall,
  unsubscribe_to_data_blocks, unsubscribe_to_state_changes, unsubscribe_to_magnitude_changes,
  gcs_monitor_name, narrow_failed,
}
use api_gateway_gtc.Propagator.Alarm
use api_gateway_gtc.Propagator.Alarm.{AlarmCall, unsubscribe_to_alarms}
use api_gateway_gtc.Propagator.Log
use api_gateway_gtc.Propagator.Log.{LogCall, unsubscribe_to_messages}
use api_gateway_gtc.Propagator.Config
use api_gateway_gtc.Propagator.Config.{ConfigCall, unsubscribe_to_property_changes}
use api_gateway_gtc.Stream.{
  with_status, Round, wait, released, serve, subscribe_monitor, subscribe_alarms, subscribe_logs,
  subscribe_config,
}

-- Some round finds the call cancelled.
abbrev pub cancelled : {P : Type 0} → List (Round P) → Bool
cancelled [] = false
cancelled (round ∷ rounds) = if round.is_cancelled then true else cancelled rounds

module _ {W Call : Type 0} where
  -- The other threads keep the registry well formed.
  abbrev pub KeepsValid : Round (Propagator W Call) → Type 0
  KeepsValid round =
      (p : Propagator W Call) → IsValid p.registry → IsValid (round.others p).registry

  -- A cancelled call ends the loop, with a well formed registry.
  wait-ends :
      (id : ℕ) (rounds : List (Round (Propagator W Call))) (p : Propagator W Call)
      → IsValid p.registry
      → All KeepsValid rounds
      → cancelled rounds ≡ true
      → (q : Propagator W Call) × (wait id rounds p ≡ some q) × IsValid q.registry
  unfolding wait
  wait-ends id [] p v keep h = cc
  wait-ends id (round ∷ rounds) p v keep h =
      elim (Bool-cases (not round.is_cancelled && is_active id p.registry)) [
        | inr stop ↦ (p, ground arith, v)
        | inl go ↦
            let rest = wait-ends id rounds (round.others p) (keep.0 p v) keep.1 (ground arith) in
            (rest.0, ground (arith, rest.1), rest.2)
      ]

  pub with_status-registry :
      (r : Outcome (Unit {0}) × Propagator W Call) → (with_status r).1.registry ≡ r.1.registry
  with_status-registry (ok u, q) = refl
  with_status-registry (throw e, q) = refl

  serve-releases :
      (unsubscribe : ℕ → Exec (Propagator W Call) (Unit {0}))
      (rounds : List (Round (Propagator W Call))) (start : Outcome ℕ × Propagator W Call)
      (key : String) (w : W) (p : Propagator W Call)
      → ((id : ℕ) (q : Propagator W Call)
          → (unsubscribe id q).1.registry ≡ (remove_entry id q.registry).0)
      → Registered key w p start ⊎ Refused p start
      → IsValid p.registry
      → p.registry.next_id + 1 < 2 ^ 64
      → All KeepsValid rounds
      → cancelled rounds ≡ true
      → (r : Outcome Status × Propagator W Call) × (serve unsubscribe rounds start ≡ some r)
        × (entry r.1.registry p.registry.next_id ≡ none)
  unfolding serve released
  serve-releases unsubscribe rounds (throw e, q) key w p un (inl done) v room keep h = cc
  serve-releases unsubscribe rounds (throw e, q) key w p un (inr failed) v room keep h =
      ((throw e, q), refl, ap (λ r. entry r p.registry.next_id) failed.2 ∙ find_next p.registry v)
  serve-releases unsubscribe rounds (ok id, q) key w p un (inr failed) v room keep h = cc
  serve-releases unsubscribe rounds (ok id, q) key w p un (inl done) v room keep h =
      let vq : IsValid q.registry = rw done.1 (add_entry-IsValid key w p.registry v room) in
      let waited = wait-ends id rounds q vq keep h in
      let e : id ≡ p.registry.next_id = ground (arith, done.0) in
      (
        with_status (unsubscribe id waited.0),
        rw (serve, waited.1) refl,
        rw (with_status-registry (unsubscribe id waited.0), un id waited.0)
            (ground (arith, entry-remove_entry id p.registry.next_id waited.0.registry waited.2)),
      )

module _ {Ctx Obj W C : Type 0} where
  pub registry-monitor_unsubscribe :
      (env : Env Ctx Obj (MonitorCall C)) (id : ℕ) (component magnitude : String)
      (type : MonitorType) (consumer : C) (p : Propagator W (MonitorCall C))
      → (Monitor.unsubscribe env id component magnitude type consumer p).1.registry
        ≡ (remove_entry id p.registry).0
  unfolding Monitor.unsubscribe Monitor.corba_unsubscribe
  registry-monitor_unsubscribe env id c m data_blocks r p =
      registry-unsubscribe_id env gcs_monitor_name narrow_failed
        (unsubscribe_to_data_blocks (c_str c) (c_str m) r) id p
  registry-monitor_unsubscribe env id c m state_changes r p =
      registry-unsubscribe_id env gcs_monitor_name narrow_failed
        (unsubscribe_to_state_changes (c_str c) r) id p
  registry-monitor_unsubscribe env id c m magnitude_changes r p =
      registry-unsubscribe_id env gcs_monitor_name narrow_failed
        (unsubscribe_to_magnitude_changes (c_str c) (c_str m) r) id p
  registry-monitor_unsubscribe env id c m unknown r p =
      registry-unsubscribe_with env gcs_monitor_name narrow_failed (pure tt) id p (λ q. refl)
  registry-monitor_unsubscribe env id c m (unrecognized n) r p =
      registry-unsubscribe_with env gcs_monitor_name narrow_failed (pure tt) id p (λ q. refl)

  -- With a well-formed registry, room for an id, and other threads that keep the registry well
  -- formed, `SubscribeMonitor` ends once its call is cancelled, and then its id has no entry.
  pub subscribe_monitor-releases :
      (env : Env Ctx Obj (MonitorCall C)) (component magnitude : String) (type : MonitorType)
      (consumer : C) (w : W) (rounds : List (Round (Propagator W (MonitorCall C))))
      (p : Propagator W (MonitorCall C))
      → IsValid p.registry
      → p.registry.next_id + 1 < 2 ^ 64
      → All KeepsValid rounds
      → cancelled rounds ≡ true
      → (r : Outcome Status × Propagator W (MonitorCall C)) × (subscribe_monitor env component
            magnitude type consumer w rounds p
          ≡ some r)
        × (entry r.1.registry p.registry.next_id ≡ none)
  unfolding subscribe_monitor
  subscribe_monitor-releases env c m type consumer w rounds p v room keep h =
      elim (monitor_subscribe_outcome env c m type consumer w p) [
        | inl (key, e, done) ↦ at_key key (inl done)
        | inr failed ↦ at_key "" (inr failed)
      ]
    where
      at_key :
          (key : String)
          → Registered key w p (Monitor.subscribe env c m type consumer w p)
            ⊎ Refused p (Monitor.subscribe env c m type consumer w p)
          → (r : Outcome Status × Propagator W (MonitorCall C)) × (serve
                (λ id. Monitor.unsubscribe env id c m type consumer)
                rounds
                (Monitor.subscribe env c m type consumer w p)
              ≡ some r)
            × (entry r.1.registry p.registry.next_id ≡ none)
      at_key key o =
          serve-releases (λ id. Monitor.unsubscribe env id c m type consumer) rounds
            (Monitor.subscribe env c m type consumer w p) key w p
            (λ id q. registry-monitor_unsubscribe env id c m type consumer q) o v room keep h

  -- `SubscribeAlarms`, with other threads that keep the registry well formed while it waits, ends once
  -- the call is cancelled, and then its id has no entry.
  pub subscribe_alarms-releases :
      (env : Env Ctx Obj (AlarmCall C)) (component : String) (consumer : C) (w : W)
      (rounds : List (Round (Propagator W (AlarmCall C)))) (p : Propagator W (AlarmCall C))
      → IsValid p.registry
      → p.registry.next_id + 1 < 2 ^ 64
      → All KeepsValid rounds
      → cancelled rounds ≡ true
      → (r : Outcome Status × Propagator W (AlarmCall C)) × (subscribe_alarms env component consumer
            w rounds p
          ≡ some r)
        × (entry r.1.registry p.registry.next_id ≡ none)
  unfolding subscribe_alarms Alarm.unsubscribe Alarm.corba_unsubscribe
  subscribe_alarms-releases env component consumer w rounds p v room keep h =
      serve-releases (λ id. Alarm.unsubscribe env id component consumer) rounds
        (Alarm.subscribe env component consumer w p) (event_key component) w p
        (λ id q.
          registry-unsubscribe_id env Alarm.gcs_alarm_name Alarm.narrow_failed
            (unsubscribe_to_alarms consumer) id q)
        (alarm_subscribe_outcome env component consumer w p) v room keep h

  -- `SubscribeLogs`, with other threads that keep the registry well formed while it waits, ends once
  -- the call is cancelled, and then its id has no entry.
  pub subscribe_logs-releases :
      (env : Env Ctx Obj (LogCall C)) (component : String) (consumer : C) (w : W)
      (rounds : List (Round (Propagator W (LogCall C)))) (p : Propagator W (LogCall C))
      → IsValid p.registry
      → p.registry.next_id + 1 < 2 ^ 64
      → All KeepsValid rounds
      → cancelled rounds ≡ true
      → (r : Outcome Status × Propagator W (LogCall C)) × (subscribe_logs env component consumer w
            rounds p
          ≡ some r)
        × (entry r.1.registry p.registry.next_id ≡ none)
  unfolding subscribe_logs Log.unsubscribe Log.corba_unsubscribe
  subscribe_logs-releases env component consumer w rounds p v room keep h =
      serve-releases (λ id. Log.unsubscribe env id component consumer) rounds
        (Log.subscribe env component consumer w p) (record_key component) w p
        (λ id q.
          registry-unsubscribe_id env Log.gcs_log_name Log.narrow_failed
            (unsubscribe_to_messages consumer) id q)
        (log_subscribe_outcome env component consumer w p) v room keep h

  -- `SubscribeConfig`, with other threads that keep the registry well formed while it waits, ends once
  -- the call is cancelled, and then its id has no entry.
  pub subscribe_config-releases :
      (env : Env Ctx Obj (ConfigCall C)) (property : String) (consumer : C) (w : W)
      (rounds : List (Round (Propagator W (ConfigCall C)))) (p : Propagator W (ConfigCall C))
      → IsValid p.registry
      → p.registry.next_id + 1 < 2 ^ 64
      → All KeepsValid rounds
      → cancelled rounds ≡ true
      → (r : Outcome Status × Propagator W (ConfigCall C)) × (subscribe_config env property consumer
            w rounds p
          ≡ some r)
        × (entry r.1.registry p.registry.next_id ≡ none)
  unfolding subscribe_config Config.unsubscribe Config.corba_unsubscribe
  subscribe_config-releases env property consumer w rounds p v room keep h =
      serve-releases (λ id. Config.unsubscribe env id property consumer) rounds
        (Config.subscribe env property consumer w p) (property_key property) w p
        (λ id q.
          registry-unsubscribe_id env Config.gcs_config_name Config.narrow_failed
            (unsubscribe_to_property_changes consumer) id q)
        (config_subscribe_outcome env property consumer w p) v room keep h
