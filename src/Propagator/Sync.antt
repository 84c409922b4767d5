-- ===== src/Propagator/Sync.antt =====
-- What `MonitorPropagator` tells the manager, and what its registry holds, when its methods follow one
-- another.
use mathlib.Core.Path.{ap₂}
use api_gateway_gtc.Base.{
  c_str, ap, ◌∙◌, ℕ, ◌+◌, ◌<◌, ◌^◌, String, ◌≡◌, refl, sym, Bool, true, false, some, [], inl, inr,
  arith, Option-cases,
}
use api_gateway_gtc.Base.Outcome.{Outcome, ok, throw, Exec, bind}
use api_gateway_gtc.Registry.{Entry, Transport, empty, has_active_writers, dispatch}
use api_gateway_gtc.Registry.Keys.{data_block_key, state_change_key, magnitude_change_key}
use api_gateway_gtc.Registry.Invariant.{empty-IsValid, dispatch-IsValid}
use api_gateway_gtc.Registry.View.{entry, has_active_writers_iff}
use api_gateway_gtc.Registry.Dispatch.{dispatch_active}
use api_gateway_gtc.Propagator.{Propagator, Env, ensure_connected, subscribe_key, unsubscribe_id}
use api_gateway_gtc.Propagator.Shared.{
  Protocol, Inv, Inv-transfer, latest, ensure_connected_frame, subscribe_key-Inv,
  unsubscribe_id-Inv, unsubscribe_absent,
}
use api_gateway_gtc.Propagator.Monitor.{
  MonitorType, unknown, data_blocks, state_changes, magnitude_changes, unrecognized, MonitorCall,
  subscribe_to_data_blocks, subscribe_to_state_changes, subscribe_to_magnitude_changes,
  unsubscribe_to_data_blocks, unsubscribe_to_state_changes, unsubscribe_to_magnitude_changes,
  monitor_key, corba_subscribe, corba_unsubscribe, subscribe, unsubscribe, gcs_monitor_name,
  narrow_failed,
}

-- The names are for C what they are.
abbrev pub NoNul : String → String → Type 0
NoNul component magnitude = (c_str component ≡ component) × (c_str magnitude ≡ magnitude)

module _ {C : Type 0} where
  -- The key of the topic that a call names.
  abbrev pub call_key : MonitorCall C → String
  call_key (subscribe_to_data_blocks c m r) = data_block_key c m
  call_key (subscribe_to_state_changes c r) = state_change_key c
  call_key (subscribe_to_magnitude_changes c m r) = magnitude_change_key c m
  call_key (unsubscribe_to_data_blocks c m r) = data_block_key c m
  call_key (unsubscribe_to_state_changes c r) = state_change_key c
  call_key (unsubscribe_to_magnitude_changes c m r) = magnitude_change_key c m

  abbrev pub call_starts : MonitorCall C → Bool
  call_starts (subscribe_to_data_blocks c m r) = true
  call_starts (subscribe_to_state_changes c r) = true
  call_starts (subscribe_to_magnitude_changes c m r) = true
  call_starts (unsubscribe_to_data_blocks c m r) = false
  call_starts (unsubscribe_to_state_changes c r) = false
  call_starts (unsubscribe_to_magnitude_changes c m r) = false

  abbrev pub protocol : Protocol (MonitorCall C)
  protocol = record { key_of = call_key; starts = call_starts }

module _ {Ctx Obj W C : Type 0} (env : Env Ctx Obj (MonitorCall C)) where
  -- The part of `subscribe` behind `ensureConnected`.
  keyed :
      (component magnitude : String) (type : MonitorType) (consumer : C) (w : W)
      → Exec (Propagator W (MonitorCall C)) ℕ
  keyed component magnitude type consumer w q =
      bind (monitor_key type component magnitude, q)
        (λ key. subscribe_key key (corba_subscribe env type component magnitude consumer) w)

  keyed-Inv :
      (component magnitude : String) (type : MonitorType) (consumer : C) (w : W)
      (q : Propagator W (MonitorCall C))
      → Inv protocol q
      → NoNul component magnitude
      → q.registry.next_id + 1 < 2 ^ 64
      → Inv protocol (keyed component magnitude type consumer w q).1
  unfolding keyed monitor_key corba_subscribe
  keyed-Inv c m data_blocks r w q v n room =
      subscribe_key-Inv protocol env _ (subscribe_to_data_blocks (c_str c) (c_str m) r) w q
        (ap₂ data_block_key n.0 n.1) refl v room
  keyed-Inv c m state_changes r w q v n room =
      subscribe_key-Inv protocol env _ (subscribe_to_state_changes (c_str c) r) w q
        (ap state_change_key n.0) refl v room
  keyed-Inv c m magnitude_changes r w q v n room =
      subscribe_key-Inv protocol env _ (subscribe_to_magnitude_changes (c_str c) (c_str m) r) w q
        (ap₂ magnitude_change_key n.0 n.1) refl v room
  keyed-Inv c m unknown r w q v n room = v
  keyed-Inv c m (unrecognized k) r w q v n room = v

  -- `subscribe` keeps the invariant, whatever fails.
  pub subscribe-Inv :
      (component magnitude : String) (type : MonitorType) (consumer : C) (w : W)
      (p : Propagator W (MonitorCall C))
      → Inv protocol p
      → NoNul component magnitude
      → p.registry.next_id + 1 < 2 ^ 64
      → Inv protocol (subscribe env component magnitude type consumer w p).1
  unfolding subscribe keyed
  subscribe-Inv c m type r w p v n room =
      after (ensure_connected env gcs_monitor_name narrow_failed p)
        (ensure_connected_frame env gcs_monitor_name narrow_failed p)
    where
      after :
          (o : Outcome (Unit {0}) × Propagator W (MonitorCall C))
          → (o.1.registry ≡ p.registry) × (o.1.accepted ≡ p.accepted)
          → Inv protocol (bind o (λ _. keyed c m type r w)).1
      after (throw e, q) f = Inv-transfer protocol p q f.0 f.1 v
      after (ok u, q) f =
          keyed-Inv c m type r w q (Inv-transfer protocol p q f.0 f.1 v) n (rw f.0 room)

  no_topic :
      (id : ℕ) (cancel : Exec (Propagator W (MonitorCall C)) (Unit {0}))
      (p : Propagator W (MonitorCall C))
      → ((e : Entry W) → ¬ (entry p.registry id ≡ some e))
      → Inv protocol p
      → Inv protocol (unsubscribe_id env gcs_monitor_name narrow_failed cancel id p).1
  no_topic id cancel p absent v = elim (Option-cases (entry p.registry id)) [
    | inl h ↦ rw (unsubscribe_absent env gcs_monitor_name narrow_failed cancel id p h) v
    | inr (e, h) ↦ absurd (absent e h)
  ]

  -- `unsubscribe` keeps the invariant, if the id was registered for the topic that it is given.
  pub unsubscribe-Inv :
      (id : ℕ) (component magnitude : String) (type : MonitorType) (consumer : C)
      (p : Propagator W (MonitorCall C))
      → NoNul component magnitude
      → ((e : Entry W)
          → entry p.registry id ≡ some e
          → monitor_key type component magnitude ≡ ok e.key)
      → Inv protocol p
      → Inv protocol (unsubscribe env id component magnitude type consumer p).1
  unfolding unsubscribe corba_unsubscribe monitor_key
  unsubscribe-Inv id c m data_blocks r p n mine v =
      unsubscribe_id-Inv env gcs_monitor_name narrow_failed protocol
        (unsubscribe_to_data_blocks (c_str c) (c_str m) r) id p refl
        (λ e h. sym (ground (arith, mine e h)) ∙ sym (ap₂ data_block_key n.0 n.1)) v
  unsubscribe-Inv id c m state_changes r p n mine v =
      unsubscribe_id-Inv env gcs_monitor_name narrow_failed protocol
        (unsubscribe_to_state_changes (c_str c) r) id p refl
        (λ e h. sym (ground (arith, mine e h)) ∙ sym (ap state_change_key n.0)) v
  unsubscribe-Inv id c m magnitude_changes r p n mine v =
      unsubscribe_id-Inv env gcs_monitor_name narrow_failed protocol
        (unsubscribe_to_magnitude_changes (c_str c) (c_str m) r) id p refl
        (λ e h. sym (ground (arith, mine e h)) ∙ sym (ap₂ magnitude_change_key n.0 n.1)) v
  unsubscribe-Inv id c m unknown r p n mine v = no_topic id _ p (λ e h. cc (mine e h)) v
  unsubscribe-Inv id c m (unrecognized k) r p n mine v = no_topic id _ p (λ e h. cc (mine e h)) v

-- What happens to the propagator, one whole method at a time: a client subscribes, a client that
-- had subscribed leaves, an event is sent on; the names hold no NUL.
module _ (Ctx Obj W C T S : Type 0) where
  pub data Step (p q : Propagator W (MonitorCall C)) : Type 0 where
    subscribes :
        (env : Env Ctx Obj (MonitorCall C)) (component magnitude : String) (type : MonitorType)
        (consumer : C) (w : W)
        → NoNul component magnitude
        → p.registry.next_id + 1 < 2 ^ 64
        → q ≡ (subscribe env component magnitude type consumer w p).1
        → Step p q
    unsubscribes :
        (env : Env Ctx Obj (MonitorCall C)) (id : ℕ) (component magnitude : String)
        (type : MonitorType) (consumer : C)
        → NoNul component magnitude
        → ((e : Entry W)
            → entry p.registry id ≡ some e
            → monitor_key type component magnitude ≡ ok e.key)
        → q ≡ (unsubscribe env id component magnitude type consumer p).1
        → Step p q
    dispatches :
        (t : Transport W T S) (key : String) (x : T) (s : S)
        → q ≡ record p { registry = (dispatch t key x (p.registry, s)).0.0 }
        → Step p q

  -- The states after any number of such steps.
  pub data Reach (p : Propagator W (MonitorCall C)) : Propagator W (MonitorCall C) → Type 0 where
    here : Reach p p
    next : {q r : Propagator W (MonitorCall C)} → Reach p q → Step q r → Reach p r

  Step-Inv : (p q : Propagator W (MonitorCall C)) → Step p q → Inv protocol p → Inv protocol q
  Step-Inv p q (subscribes env c m type r w n room e) v =
      rw e (subscribe-Inv env c m type r w p v n room)
  Step-Inv p q (unsubscribes env id c m type r n mine e) v =
      rw e (unsubscribe-Inv env id c m type r p n mine v)
  Step-Inv p q (dispatches t key x s e) v = rw e (record {
    valid = dispatch-IsValid t key x p.registry s v.valid;
    synced = λ k h.
        let after = (dispatch t key x (p.registry, s)).0.0 in
        let (id, sv) =
          (has_active_writers_iff k after (dispatch-IsValid t key x p.registry s v.valid)).0 h in
        v.synced k (
          (has_active_writers_iff k p.registry v.valid).1
            (id, dispatch_active t key x p.registry s k id sv));
  })

  Reach-Inv : {p q : Propagator W (MonitorCall C)} → Reach p q → Inv protocol p → Inv protocol q
  Reach-Inv here v = v
  Reach-Inv (next {q = m} {r = r} reach step) v = Step-Inv m r step (Reach-Inv reach v)

  -- The propagator as it is constructed.
  unfoldable pub fresh : Propagator W (MonitorCall C)
  fresh = record { registry = empty; connected = false; accepted = [] }

  pub fresh-Inv : Inv protocol fresh
  unfolding fresh empty has_active_writers
  fresh-Inv = record { valid = empty-IsValid; synced = λ k h. absurd (ground arith) }

  -- In every state that a monitor propagator reaches by whole calls, one after the other, of
  -- subscribe, of unsubscribe with the arguments of the subscription, and of dispatch, the names
  -- without a NUL, a key with an active writer is one whose latest call to the manager started the
  -- subscription.
  pub Reach-synced :
      {q : Propagator W (MonitorCall C)} (key : String)
      → Reach fresh q
      → has_active_writers key q.registry ≡ true
      → latest protocol key q.accepted ≡ true
  Reach-synced key reach = (Reach-Inv reach fresh-Inv).synced key
