-- ===== src/Consumer/Delivery.antt =====
-- Who receives what when a manager delivers a list of events.
use mathlib.Core.List.{append_assoc, append-nil}
use api_gateway_gtc.Base.{ℕ, ◌++◌, String, ◌≡◌, sym, ap, ◌∙◌, true, List, [], ◌∷◌, append}
use api_gateway_gtc.Registry.{Registry, Transport, targets, deliver, dispatch}
use api_gateway_gtc.Registry.Invariant.{IsValid, dispatch-IsValid}
use api_gateway_gtc.Registry.View.{Serves}
use api_gateway_gtc.Registry.Dispatch.{dispatch_active}
use api_gateway_gtc.Registry.Keys.{event_key, data_block_key, property_key}
use api_gateway_gtc.Adapter.Events.{
  Event, AlarmEvent, from_event, PropertyChange, ConfigEvent, from_property,
}
use api_gateway_gtc.Adapter.Monitor.{DataBlock, from_data_block}
use api_gateway_gtc.Consumer.{
  dispatch_each, receive_alarms, receive_data_blocks, receive_property_changes, full_id,
  MonitorEvent, data_block,
}

-- Streams that take every message, and keep what was written to whom, in order.
abbrev pub recorder : {W T : Type 0} → Transport W T (List (W × T))
recorder = record { write = λ w x s. (true, append s ((w, x) ∷ [])) }

abbrev pub addressed : {W T : Type 0} → T → List (ℕ × W) → List (W × T)
addressed x [] = []
addressed x ((id, w) ∷ ts) = (w, x) ∷ addressed x ts

deliver-recorder :
    {W T : Type 0} (ts : List (ℕ × W)) (x : T) (r : Registry W) (s : List (W × T))
    → (deliver recorder ts x r s true).0 ≡ (r, append s (addressed x ts))
unfolding deliver
deliver-recorder [] x r s = ap (λ l. (r, l)) (sym (append-nil s))
deliver-recorder ((id, w) ∷ ts) x r s =
    deliver-recorder ts x r (append s ((w, x) ∷ []))
    ∙ ap (λ l. (r, l)) (append_assoc s ((w, x) ∷ []) (addressed x ts))

module _ {E W T : Type 0} (key : E → String) (convert : E → T) where
  -- For each event in order, a message to each active entry with the event's key, in the order
  -- of the ids.
  unfoldable pub outbox : Registry W → List E → List (W × T)
  outbox r [] = []
  outbox r (event ∷ events) =
      append (addressed (convert event) (targets (key event) r.entries)) (outbox r events)

  dispatch_each-recorder :
      (events : List E) (r : Registry W) (s : List (W × T))
      → dispatch_each recorder key convert events (r, s) ≡ (r, append s (outbox r events))
  unfolding dispatch_each dispatch outbox
  dispatch_each-recorder [] r s = ap (λ l. (r, l)) (sym (append-nil s))
  dispatch_each-recorder (event ∷ events) r s =
      let now = addressed (convert event) (targets (key event) r.entries) in
      ap (dispatch_each recorder key convert events)
        (deliver-recorder (targets (key event) r.entries) (convert event) r s)
      ∙ dispatch_each-recorder events r (append s now)
      ∙ ap (λ l. (r, l)) (append_assoc s now (outbox r events))

module _ {W : Type 0} where
  -- When every stream takes its messages, `receiveAlarms` writes for each event in order its
  -- message once to each active client of the component, to nobody else, and leaves the registry
  -- as it was.
  pub receive_alarms-outbox :
      (gateway_ts : ℕ) (events : List Event) (r : Registry W) (s : List (W × AlarmEvent))
      → receive_alarms recorder gateway_ts events (r, s) ≡ (
        r,
        append s (outbox (λ e. event_key e.gcs_component) (λ e. from_event e gateway_ts) r events),
      )
  unfolding receive_alarms
  receive_alarms-outbox gateway_ts events r s =
      dispatch_each-recorder (λ e. event_key e.gcs_component) (λ e. from_event e gateway_ts) events
        r s

  -- When every stream takes its messages, `receivePropertyChanges` writes each change in order once
  -- to each active client of the property `component.name`, and leaves the registry as it was.
  pub receive_property_changes-outbox :
      (gateway_ts : ℕ) (changes : List PropertyChange) (r : Registry W) (s : List (W × ConfigEvent))
      → receive_property_changes recorder gateway_ts changes (r, s) ≡ (
        r,
        append s (
            outbox
              (λ c. property_key (c.gcs_component ++ "." ++ c.property_name))
              (λ c. from_property c gateway_ts)
              r
              changes),
      )
  unfolding receive_property_changes full_id
  receive_property_changes-outbox gateway_ts changes r s =
      dispatch_each-recorder (λ c. property_key (full_id c)) (λ c. from_property c gateway_ts)
        changes r s

  -- When every stream takes its messages, `receiveDataBlocks` writes each block in order once to
  -- each active client of the block's component and magnitude, and leaves the registry as it was.
  pub receive_data_blocks-outbox :
      {Double Float : Type 0} (gateway_ts : ℕ) (blocks : List (DataBlock Double Float))
      (r : Registry W) (s : List (W × MonitorEvent Double Float))
      → receive_data_blocks recorder gateway_ts blocks (r, s) ≡ (
        r,
        append s (
            outbox
              (λ b. data_block_key b.gcs_component b.magnitude)
              (λ b. record { payload = data_block (from_data_block b); gateway_ts = gateway_ts })
              r
              blocks),
      )
  unfolding receive_data_blocks
  receive_data_blocks-outbox gateway_ts blocks r s =
      dispatch_each-recorder (λ b. data_block_key b.gcs_component b.magnitude)
        (λ b. record { payload = data_block (from_data_block b); gateway_ts = gateway_ts }) blocks r
        s

module _ {E W T S : Type 0} (t : Transport W T S) (key : E → String) (convert : E → T) where
  -- Whatever the streams do, the loop of a consumer keeps the registry well formed.
  pub dispatch_each-IsValid :
      (events : List E) (r : Registry W) (s : S)
      → IsValid r
      → IsValid (dispatch_each t key convert events (r, s)).0
  unfolding dispatch_each
  dispatch_each-IsValid [] r s v = v
  dispatch_each-IsValid (event ∷ events) r s v =
      let next = dispatch t (key event) (convert event) (r, s) in
      dispatch_each-IsValid events next.0.0 next.0.1
        (dispatch-IsValid t (key event) (convert event) r s v)

  -- Whatever the streams do, an entry that is active after the loop of a consumer was active before
  -- it, under the same key: no client whose write failed becomes active again.
  pub dispatch_each_active :
      (events : List E) (r : Registry W) (s : S) (k : String) (id : ℕ)
      → Serves k id (dispatch_each t key convert events (r, s)).0.entries
      → Serves k id r.entries
  unfolding dispatch_each
  dispatch_each_active [] r s k id h = h
  dispatch_each_active (event ∷ events) r s k id h =
      let next = dispatch t (key event) (convert event) (r, s) in
      dispatch_active t (key event) (convert event) r s k id
        (dispatch_each_active events next.0.0 next.0.1 k id h)
