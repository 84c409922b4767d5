-- ===== src/ConfigService/Announced.antt =====
-- Who hears of a property that `ConfigService::setProperty` has set, through the consumer of
-- src/CorbaServant/config_consumer.cpp and the registry.
use api_gateway_gtc.Base.{
  ℕ, String, ◌==◌, ◌≡◌, ap, ap, ◌∙◌, Bool, true, [], ◌∷◌, if◌then◌else◌, arith,
}
use api_gateway_gtc.Base.Outcome.{ok}
use api_gateway_gtc.Registry.Invariant.{IsValid}
use api_gateway_gtc.Registry.Keys.{property_key}
use api_gateway_gtc.Propagator.{Propagator, Env}
use api_gateway_gtc.Propagator.Outcomes.{config_subscribe_outcome}
use api_gateway_gtc.Propagator.Config
use api_gateway_gtc.Propagator.Config.{ConfigCall}
use api_gateway_gtc.Adapter.Events.{PropertyChange, ConfigEvent, from_property}
use api_gateway_gtc.Consumer.{receive_property_changes, full_id}
use api_gateway_gtc.Consumer.Delivery.{recorder, receive_property_changes-outbox}
use api_gateway_gtc.Consumer.Subscriber.{Absent, received, prefixed, received-subscribed}
use api_gateway_gtc.ConfigService.{property_change}
use api_gateway_gtc.ConfigService.Split.{announced, full_id-property_change}

key-property :
    (property changed : String) (now_usec : ℕ)
    → (property_key property == property_key (full_id (property_change changed now_usec)))
      ≡ (property == announced changed)
unfolding property_key
key-property property changed now_usec =
    prefixed "C:" property (full_id (property_change changed now_usec))
    ∙ ap (λ n. property == n) (full_id-property_change changed now_usec)

module _ {Ctx Obj W C : Type 0} (mine : W → Bool) where
  -- A client that `ConfigPropagator::subscribe` has registered for a property in a well-formed
  -- registry, with a writer that no entry had, receives the change that `setProperty` makes up for
  -- a property, when the manager passes it on as it is and every stream takes its messages, if the
  -- two full names are equal and have a dot, or if its own is the other, without a dot, behind a
  -- dot; otherwise it receives nothing.
  pub receive_property_changes-announced :
      (env : Env Ctx Obj (ConfigCall C)) (property : String) (consumer : C) (w : W)
      (p : Propagator W (ConfigCall C)) (id gateway_ts now_usec : ℕ) (changed : String)
      → mine w ≡ true
      → Absent mine p.registry.entries
      → IsValid p.registry
      → let after = Config.subscribe env property consumer w p in
        let change = property_change changed now_usec in
        after.0 ≡ ok id
        → received mine
            (receive_property_changes recorder gateway_ts (change ∷ []) (after.1.registry, [])).1
          ≡ (if property == announced changed then from_property change gateway_ts ∷ [] else [])
  unfolding full_id
  receive_property_changes-announced env property consumer w p id gateway_ts now_usec changed h a v
        e =
      let after = Config.subscribe env property consumer w p in
      let change = property_change changed now_usec in
      let convert : PropertyChange → ConfigEvent = λ c. from_property c gateway_ts in
      ap (λ r. received mine r.1)
        (receive_property_changes-outbox gateway_ts (change ∷ []) after.1.registry [])
      ∙ received-subscribed mine (λ c. property_key (full_id c)) convert (property_key property) w
          id p after h a v (config_subscribe_outcome env property consumer w p) e (change ∷ [])
      ∙ ground (arith, key-property property changed now_usec)
