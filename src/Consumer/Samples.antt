-- ===== src/Consumer/Samples.antt =====
-- What a client of `SubscribeMonitor` receives: `MonitorPropagator::subscribe` and
-- `MonitorConsumer::receiveDataBlocks`.
use api_gateway_gtc.Base.{
  ℕ, String, ◌==◌, eq_iff, ◌≡◌, refl, ap, ◌∙◌, ◌⊎◌, Bool, true, ◌&&◌, List, [], ◌∷◌, map, All, inl,
  inr, arith, Bool-cases,
}
use api_gateway_gtc.Base.Outcome.{Outcome, ok}
use api_gateway_gtc.Registry.Invariant.{IsValid}
use api_gateway_gtc.Registry.Keys.{data_block_key, no_colon, data_block_key_injective}
use api_gateway_gtc.Propagator.{Propagator, Env}
use api_gateway_gtc.Propagator.Ends.{Registered, Refused}
use api_gateway_gtc.Propagator.Outcomes.{monitor_subscribe_outcome}
use api_gateway_gtc.Propagator.Monitor
use api_gateway_gtc.Propagator.Monitor.{MonitorCall, data_blocks, monitor_key}
use api_gateway_gtc.Adapter.Monitor.{DataBlock, from_data_block}
use api_gateway_gtc.Consumer.{receive_data_blocks, MonitorEvent, data_block}
use api_gateway_gtc.Consumer.Delivery.{recorder, receive_data_blocks-outbox}
use api_gateway_gtc.Consumer.Subscriber.{Absent, received, matching, received-subscribed}

-- Keys of components without a colon decide component and magnitude.
same_topic :
    (c m d n : String)
    → no_colon c ≡ true
    → no_colon d ≡ true
    → (data_block_key c m == data_block_key d n) ≡ (c == d && m == n)
same_topic c m d n hc hd = elim (Bool-cases (data_block_key c m == data_block_key d n)) [
  | inl same ↦
      let parts =
        data_block_key_injective c d m n hc hd
          ((eq_iff (data_block_key c m) (data_block_key d n)).0 same) in
      let left : (c == d) ≡ true = (eq_iff c d).1 parts.0 in
      let right : (m == n) ≡ true = (eq_iff m n).1 parts.1 in ground arith
  | inr apart ↦ elim (Bool-cases (c == d && m == n)) [
    | inl both ↦
        let left : c ≡ d = (eq_iff c d).0 (ground arith) in
        let right : m ≡ n = (eq_iff m n).0 (ground arith) in
        let keys : data_block_key c m ≡ data_block_key d n = cc in
        absurd (ground (arith, (eq_iff (data_block_key c m) (data_block_key d n)).1 keys))
    | inr differ ↦ ground arith
  ]
]

module _ {Double Float : Type 0} where
  abbrev pub PlainComponents : List (DataBlock Double Float) → Type 0
  PlainComponents blocks =
      All (λ (b : DataBlock Double Float). no_colon b.gcs_component ≡ true) blocks

  abbrev pub concerns : String → String → DataBlock Double Float → Bool
  concerns component magnitude b = component == b.gcs_component && magnitude == b.magnitude

  matching_topic :
      (c m : String) (blocks : List (DataBlock Double Float))
      → no_colon c ≡ true
      → PlainComponents blocks
      → matching (λ b. data_block_key c m == data_block_key b.gcs_component b.magnitude) blocks
        ≡ matching (concerns c m) blocks
  matching_topic c m [] h plain = refl
  matching_topic c m (block ∷ blocks) h plain = ground (
    arith,
    same_topic c m block.gcs_component block.magnitude h plain.0,
    matching_topic c m blocks h plain.1,
  )

module _ {Ctx Obj W C Double Float : Type 0} (mine : W → Bool) where
  -- A client that `MonitorPropagator::subscribe` has registered for the data blocks of a component
  -- and a magnitude in a well-formed registry, with a writer that no entry had, then receives from
  -- `receiveDataBlocks` the message of each block of both, once and in order, and no other, when
  -- no component has a colon and every stream takes its messages.
  pub receive_data_blocks-subscribe :
      (env : Env Ctx Obj (MonitorCall C)) (component magnitude : String) (consumer : C) (w : W)
      (p : Propagator W (MonitorCall C)) (id gateway_ts : ℕ)
      (blocks : List (DataBlock Double Float))
      → mine w ≡ true
      → Absent mine p.registry.entries
      → IsValid p.registry
      → no_colon component ≡ true
      → PlainComponents blocks
      → let after = Monitor.subscribe env component magnitude data_blocks consumer w p in
        after.0 ≡ ok id
        → received mine (receive_data_blocks recorder gateway_ts blocks (after.1.registry, [])).1
          ≡ map
              (λ b. record { payload = data_block (from_data_block b); gateway_ts = gateway_ts })
              (matching (concerns component magnitude) blocks)
  unfolding monitor_key
  receive_data_blocks-subscribe env c m consumer w p id gateway_ts blocks h a v plain plains e =
      ap (λ r. received mine r.1) (receive_data_blocks-outbox gateway_ts blocks after.1.registry [])
      ∙ received-subscribed mine (λ b. data_block_key b.gcs_component b.magnitude) convert
          (data_block_key c m) w id p after h a v
          (registered (monitor_subscribe_outcome env c m data_blocks consumer w p)) e blocks
      ∙ ap (map convert) (matching_topic c m blocks plain plains)
    where
      after : Outcome ℕ × Propagator W (MonitorCall C)
      after = Monitor.subscribe env c m data_blocks consumer w p

      convert : DataBlock Double Float → MonitorEvent Double Float
      convert b = record { payload = data_block (from_data_block b); gateway_ts = gateway_ts }

      registered :
          ((key : String) × (monitor_key data_blocks c m ≡ ok key) × Registered key w p after)
            ⊎ Refused p after
          → Registered (data_block_key c m) w p after ⊎ Refused p after
      registered (inl (key, same, done)) = inl (done.0, done.1 ∙ cc)
      registered (inr failed) = inr failed
