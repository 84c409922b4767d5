-- ===== src/Propagator/Broadcast.antt =====
-- `AlarmPropagator`, `LogPropagator` and `ConfigPropagator` count the writers of each component or
-- property, but tell the manager to stop everything.
use api_gateway_gtc.Base.{ℕ, String, ◌≡◌, ◌≢◌, refl, ◌∙◌, true, some, ◌∷◌, arith, nat_eq_ne}
use api_gateway_gtc.Base.Outcome.{ok}
use api_gateway_gtc.Registry.{Registry, Entry, remove_entry, has_active_writers}
use api_gateway_gtc.Registry.Keys.{event_key, record_key, property_key}
use api_gateway_gtc.Registry.Invariant.{IsValid, remove_entry-IsValid}
use api_gateway_gtc.Registry.View.{
  entry, Serves, has_active_writers_iff, entry-remove_entry, remove_entry_last,
}
use api_gateway_gtc.Propagator.{Propagator, Env}
use api_gateway_gtc.Propagator.Ends.{unsubscribe_last}
use api_gateway_gtc.Propagator.Alarm
use api_gateway_gtc.Propagator.Alarm.{AlarmCall, unsubscribe_to_alarms, subscribe_to_alarms}
use api_gateway_gtc.Propagator.Log
use api_gateway_gtc.Propagator.Log.{LogCall, unsubscribe_to_messages, subscribe_to_messages}
use api_gateway_gtc.Propagator.Config
use api_gateway_gtc.Propagator.Config.{
  ConfigCall, unsubscribe_to_property_changes, subscribe_to_property_changes,
}

-- The only active entry of its key, beside an active entry of another key.
pub record LastOfTwo {W : Type 0} (r : Registry W) (key other : String) (id : ℕ) : Type 0 where
  pub valid : IsValid r
  pub mine : Serves key id r.entries
  pub alone : (j : ℕ) → j ≢ id → ¬ Serves key j r.entries
  pub theirs : (j : ℕ) × Serves other j r.entries
  pub differ : key ≢ other

module _ {W : Type 0} where
  last_of_two :
      (r : Registry W) (key other : String) (id : ℕ)
      → LastOfTwo r key other id
      → ((remove_entry id r).1 ≡ true) × (has_active_writers other (remove_entry id r).0 ≡ true)
  last_of_two r key other id h = (
    (remove_entry_last id r h.valid).1
        (e, found, λ j ne s. h.alone j ne (s.0, s.1, s.2, s.3 ∙ is_key)),
    (has_active_writers_iff other (remove_entry id r).0 (remove_entry-IsValid id r h.valid)).1
        (j, (f, kept, f_active, f_key)),
  )
    where
      e : Entry W
      e = h.mine.0

      found : entry r id ≡ some e
      found = h.mine.1

      is_key : e.key ≡ key
      is_key = h.mine.3

      j : ℕ
      j = h.theirs.0

      f : Entry W
      f = h.theirs.1.0

      f_active : f.active ≡ true
      f_active = h.theirs.1.2

      f_key : f.key ≡ other
      f_key = h.theirs.1.3

      apart : id ≢ j
      apart same = h.differ (ground (arith, h.theirs.1.1))

      kept : entry (remove_entry id r).0 j ≡ some f
      kept = entry-remove_entry id j r h.valid ∙ ground (arith, nat_eq_ne id j apart, h.theirs.1.1)

  module _ {Ctx Obj C : Type 0} where
    -- When the last client of one component leaves, the alarm manager is told to send the consumer
    -- nothing, though another component still has an active writer; the registry is well formed,
    -- and the manager is reached and takes the call.
    pub alarm_unsubscribe_silences :
        (env : Env Ctx Obj (AlarmCall C)) (id : ℕ) (component other : String) (consumer : C)
        (p : Propagator W (AlarmCall C))
        → LastOfTwo p.registry (event_key component) (event_key other) id
        → p.connected ≡ true
        → env.remote (unsubscribe_to_alarms consumer) ≡ ok tt
        → let q = (Alarm.unsubscribe env id component consumer p).1 in
          (q.accepted ≡ unsubscribe_to_alarms consumer ∷ p.accepted)
          × (has_active_writers (event_key other) q.registry ≡ true)
    unfolding Alarm.unsubscribe Alarm.corba_unsubscribe
    alarm_unsubscribe_silences env id component other consumer p h c r =
        let two = last_of_two p.registry (event_key component) (event_key other) id h in
        rw
          (unsubscribe_last env Alarm.gcs_alarm_name Alarm.narrow_failed
            (unsubscribe_to_alarms consumer) id p c r two.0)
          (refl, two.1)

    -- When the last client of one component leaves, the log manager is told to send the consumer
    -- nothing, though another component still has an active writer; the registry is well formed,
    -- and the manager is reached and takes the call.
    pub log_unsubscribe_silences :
        (env : Env Ctx Obj (LogCall C)) (id : ℕ) (component other : String) (consumer : C)
        (p : Propagator W (LogCall C))
        → LastOfTwo p.registry (record_key component) (record_key other) id
        → p.connected ≡ true
        → env.remote (unsubscribe_to_messages consumer) ≡ ok tt
        → let q = (Log.unsubscribe env id component consumer p).1 in
          (q.accepted ≡ unsubscribe_to_messages consumer ∷ p.accepted)
          × (has_active_writers (record_key other) q.registry ≡ true)
    unfolding Log.unsubscribe Log.corba_unsubscribe
    log_unsubscribe_silences env id component other consumer p h c r =
        let two = last_of_two p.registry (record_key component) (record_key other) id h in
        rw
          (unsubscribe_last env Log.gcs_log_name Log.narrow_failed
            (unsubscribe_to_messages consumer) id p c r two.0)
          (refl, two.1)

    -- When the last client of one property leaves, the configuration manager is told to send the
    -- consumer nothing, though another property still has an active writer; the registry is well
    -- formed, and the manager is reached and takes the call.
    pub config_unsubscribe_silences :
        (env : Env Ctx Obj (ConfigCall C)) (id : ℕ) (property other : String) (consumer : C)
        (p : Propagator W (ConfigCall C))
        → LastOfTwo p.registry (property_key property) (property_key other) id
        → p.connected ≡ true
        → env.remote (unsubscribe_to_property_changes consumer) ≡ ok tt
        → let q = (Config.unsubscribe env id property consumer p).1 in
          (q.accepted ≡ unsubscribe_to_property_changes consumer ∷ p.accepted)
          × (has_active_writers (property_key other) q.registry ≡ true)
    unfolding Config.unsubscribe Config.corba_unsubscribe
    config_unsubscribe_silences env id property other consumer p h c r =
        let two = last_of_two p.registry (property_key property) (property_key other) id h in
        rw
          (unsubscribe_last env Config.gcs_config_name Config.narrow_failed
            (unsubscribe_to_property_changes consumer) id p c r two.0)
          (refl, two.1)
