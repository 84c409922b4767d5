-- ===== src/Consumer/Subscriber.antt =====
-- What a client that has subscribed receives: the propagators of src/SubscriptionPropagator register
-- it, and the consumers of src/CorbaServant deliver.
use text.Mathlib.TextLemmas.{append_cancel_left}
use api_gateway_gtc.Base.{
  ℕ, ◌++◌, String, ◌==◌, eq_iff, ◌≡◌, refl, sym, ap, ◌∙◌, Bool, true, false, List, [], ◌∷◌, append,
  map, All, ◌⊎◌, inl, inr, arith, if◌then◌else◌, Bool-cases,
}
use api_gateway_gtc.Base.Outcome.{Outcome, ok}
use api_gateway_gtc.Registry.{Registry, Entry, targets, assign, AllBelow, add_entry}
use api_gateway_gtc.Registry.Invariant.{IsValid}
use api_gateway_gtc.Registry.Keys.{event_key}
use api_gateway_gtc.Propagator.{Propagator, Env}
use api_gateway_gtc.Propagator.Ends.{Registered, Refused}
use api_gateway_gtc.Propagator.Outcomes.{alarm_subscribe_outcome}
use api_gateway_gtc.Propagator.Alarm
use api_gateway_gtc.Propagator.Alarm.{AlarmCall}
use api_gateway_gtc.Adapter.Events.{Event, AlarmEvent, from_event}
use api_gateway_gtc.Consumer.{receive_alarms}
use api_gateway_gtc.Consumer.Delivery.{recorder, addressed, outbox, receive_alarms-outbox}

-- No entry has the client's writer.
abbrev pub Absent : {W : Type 0} → (W → Bool) → List (ℕ × Entry W) → Type 0
Absent {W} mine m = All (λ (e : ℕ × Entry W). mine e.1.writer ≡ false) m

assign_end :
    {V : Type 0} (n : ℕ) (v : V) (m : List (ℕ × V))
    → AllBelow n m
    → assign n v m ≡ append m ((n, v) ∷ [])
unfolding assign
assign_end n v [] b = refl
assign_end n v ((id, w) ∷ m) b = ground (arith, assign_end n v m b.1)

module _ {W T : Type 0} (mine : W → Bool) where
  -- What was written to the client's writer, in order.
  abbrev pub received : List (W × T) → List T
  received [] = []
  received ((w, x) ∷ sent) = let rest = received sent in if mine w then x ∷ rest else rest

  received-append :
      (xs ys : List (W × T)) → received (append xs ys) ≡ append (received xs) (received ys)
  received-append [] ys = refl
  received-append ((w, x) ∷ xs) ys = ground (arith, received-append xs ys)

  received-Absent :
      (x : T) (key : String) (m : List (ℕ × Entry W))
      → Absent mine m
      → received (addressed x (targets key m)) ≡ []
  unfolding targets
  received-Absent x key [] a = refl
  received-Absent x key ((id, e) ∷ m) a = ground (arith, received-Absent x key m a.1)

  received_last :
      (x : T) (k : String) (n : ℕ) (new : Entry W) (m : List (ℕ × Entry W))
      → mine new.writer ≡ true
      → new.active ≡ true
      → Absent mine m
      → received (addressed x (targets k (append m ((n, new) ∷ []))))
        ≡ (if new.key == k then x ∷ [] else [])
  unfolding targets
  received_last x k n new [] h act a = ground arith
  received_last x k n new ((id, e) ∷ m) h act a =
      ground (arith, received_last x k n new m h act a.1)

  received-new :
      (x : T) (key k : String) (w : W) (r : Registry W)
      → mine w ≡ true
      → Absent mine r.entries
      → IsValid r
      → received (addressed x (targets k (add_entry key w r).0.entries))
        ≡ (if key == k then x ∷ [] else [])
  unfolding add_entry
  received-new x key k w r h a v =
      let new : Entry W = record { key = key; writer = w; active = true } in
      ap (λ m. received (addressed x (targets k m))) (assign_end r.next_id new r.entries v.below)
      ∙ received_last x k r.next_id new r.entries h refl a

-- The events with the property, in order.
abbrev pub matching : {E : Type 0} → (E → Bool) → List E → List E
matching test [] = []
matching test (event ∷ events) =
    let rest = matching test events in if test event then event ∷ rest else rest

module _ {E W T : Type 0} (mine : W → Bool) (key_of : E → String) (convert : E → T) where
  received-outbox :
      (key : String) (w : W) (r : Registry W)
      → mine w ≡ true
      → Absent mine r.entries
      → IsValid r
      → (events : List E)
      → received mine (outbox key_of convert (add_entry key w r).0 events)
        ≡ map convert (matching (λ e. key == key_of e) events)
  unfolding outbox
  received-outbox key w r h a v [] = refl
  received-outbox key w r h a v (event ∷ events) =
      let q = (add_entry key w r).0 in
      let now = addressed (convert event) (targets (key_of event) q.entries) in
      ground (
        arith,
        received-append mine now (outbox key_of convert q events),
        received-new mine (convert event) key (key_of event) w r h a v,
        received-outbox key w r h a v events,
      )

-- The texts behind one prefix decide.
pub prefixed : (p c d : String) → (p ++ c == p ++ d) ≡ (c == d)
prefixed p c d = elim (Bool-cases (c == d)) [
  | inl same ↦
      let e : c ≡ d = (eq_iff c d).0 same in
      (eq_iff (p ++ c) (p ++ d)).1 (ap (λ t. p ++ t) e) ∙ sym same
  | inr differ ↦ elim (Bool-cases (p ++ c == p ++ d)) [
    | inl same ↦
        let e : c ≡ d = append_cancel_left p c d ((eq_iff (p ++ c) (p ++ d)).0 same) in
        let h : (c == d) ≡ true = (eq_iff c d).1 e in absurd (cc)
    | inr apart ↦ apart ∙ sym differ
  ]
]

prefixed_event : (c d : String) → (event_key c == event_key d) ≡ (c == d)
unfolding event_key
prefixed_event c d = prefixed "A:" c d

matching-cong :
    {E : Type 0} (f g : E → Bool)
    → ((e : E) → f e ≡ g e)
    → (events : List E) → matching f events ≡ matching g events
matching-cong f g h [] = refl
matching-cong f g h (event ∷ events) = ground (arith, h event, matching-cong f g h events)

module _ {E W T Call : Type 0} (mine : W → Bool) (key_of : E → String) (convert : E → T) where
  -- A `subscribe` that returns has registered its writer.
  pub received-subscribed :
      (key : String) (w : W) (id : ℕ) (p : Propagator W Call) (r : Outcome ℕ × Propagator W Call)
      → mine w ≡ true
      → Absent mine p.registry.entries
      → IsValid p.registry
      → Registered key w p r ⊎ Refused p r
      → r.0 ≡ ok id
      → (events : List E)
      → received mine (outbox key_of convert r.1.registry events)
        ≡ map convert (matching (λ e. key == key_of e) events)
  received-subscribed key w id p r h a v (inl done) e events =
      ap (λ q. received mine (outbox key_of convert q events)) done.1
      ∙ received-outbox mine key_of convert key w p.registry h a v events
  received-subscribed key w id p r h a v (inr (x, refused, _)) e events = absurd (cc)

module _ {Ctx Obj W C : Type 0} (mine : W → Bool) where
  -- A client that `AlarmPropagator::subscribe` has registered for a component in a well-formed
  -- registry, with a writer that no entry had, then receives from `receiveAlarms` the message of
  -- each event of that component, once and in order, and no other, when every stream takes its
  -- messages.
  pub receive_alarms-subscribe :
      (env : Env Ctx Obj (AlarmCall C)) (component : String) (consumer : C) (w : W)
      (p : Propagator W (AlarmCall C)) (id gateway_ts : ℕ) (events : List Event)
      → mine w ≡ true
      → Absent mine p.registry.entries
      → IsValid p.registry
      → let after = Alarm.subscribe env component consumer w p in
        after.0 ≡ ok id
        → received mine (receive_alarms recorder gateway_ts events (after.1.registry, [])).1
          ≡ map (λ e. from_event e gateway_ts) (matching (λ e. component == e.gcs_component) events)
  receive_alarms-subscribe env component consumer w p id gateway_ts events h a v e =
      let after = Alarm.subscribe env component consumer w p in
      let convert : Event → AlarmEvent = λ e. from_event e gateway_ts in
      ap (λ r. received mine r.1) (receive_alarms-outbox gateway_ts events after.1.registry [])
      ∙ received-subscribed mine (λ e. event_key e.gcs_component) convert (event_key component) w id
          p after h a v (alarm_subscribe_outcome env component consumer w p) e events
      ∙ ap (map convert) (
          matching-cong (λ e. event_key component == event_key e.gcs_component)
            (λ e. component == e.gcs_component) (λ e. prefixed_event component e.gcs_component)
            events)
