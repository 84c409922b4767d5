-- ===== src/Servant.antt =====
-- src/CorbaServant/corba_servant.cpp: the class `CorbaServant`, which owns the four consumers and
-- activates them in the object adapter. The adapter (POA) is a parameter; `Ref` are references.
pub mod Life
use api_gateway_gtc.Base.{Bool, true, false, Option, none, some, List, [], ◌∷◌, if◌then◌else◌}
use api_gateway_gtc.Base.Outcome.{Outcome, ok, throw, Exec, bind, pure, swallow_corba, ◌>>◌, ◌>>=◌}

-- The four consumers, in the order of their activation.
pub data Consumer : Type 0 where
  monitor_consumer alarm_consumer log_consumer config_consumer : Consumer

abbrev pub same_consumer : Consumer → Consumer → Bool
same_consumer monitor_consumer monitor_consumer = true
same_consumer alarm_consumer alarm_consumer = true
same_consumer log_consumer log_consumer = true
same_consumer config_consumer config_consumer = true
same_consumer _ _ = false

-- `activate_object`, `id_to_reference`, `_narrow` to the consumer's interface, and `servant_to_id`
-- with `deactivate_object`.
pub record Poa (Ref : Type 0) : Type 0 where
  pub activate : Consumer → Outcome (Unit {0})
  pub reference : Consumer → Outcome Ref
  pub narrow : Consumer → Ref → Outcome (Option Ref)
  pub deactivate : Consumer → Outcome (Unit {0})

-- The members for each consumer, an implementation (allocated or null) and a reference (nil or not);
-- and, outside, which consumers are active in the adapter, the latest first.
pub record CorbaServant (Ref : Type 0) : Type 0 where
  pub impl : Consumer → Bool
  pub ref : Consumer → Option Ref
  pub active : List Consumer

-- The active consumers without this one.
unfoldable pub inactive : Consumer → List Consumer → List Consumer
inactive k [] = []
inactive k (j ∷ js) = let rest = inactive k js in if same_consumer k j then rest else j ∷ rest

module _ {Ref : Type 0} where
  -- The members as the constructor initialises them.
  unfoldable pub blank : CorbaServant Ref
  blank = record { impl = λ k. false; ref = λ k. none; active = [] }

  -- `.._consumer_impl_ = new ..`.
  unfoldable pub allocate : Consumer → Exec (CorbaServant Ref) (Unit {0})
  allocate k s = (ok tt, record s { impl = λ j. if same_consumer k j then true else s.impl j })

  -- `.._consumer_ref_ = ref`.
  unfoldable pub keep : Consumer → Option Ref → Exec (CorbaServant Ref) (Unit {0})
  keep k r s = (ok tt, record s { ref = λ j. if same_consumer k j then r else s.ref j })

  abbrev pub activated : Consumer → Outcome (Unit {0}) → Exec (CorbaServant Ref) (Unit {0})
  activated k (ok u) s = (ok u, record s { active = k ∷ s.active })
  activated k (throw e) s = (throw e, s)

  abbrev pub deactivated : Consumer → Outcome (Unit {0}) → Exec (CorbaServant Ref) (Unit {0})
  unfolding inactive
  deactivated k (ok u) s = (ok u, record s { active = inactive k s.active })
  deactivated k (throw e) s = (throw e, s)

module _ {Ref : Type 0} (poa : Poa Ref) where
  -- `activateServantObject`.
  unfoldable pub activate_servant_object : Consumer → Exec (CorbaServant Ref) Ref
  activate_servant_object k = activated k (poa.activate k) >>= λ u s. (poa.reference k, s)

  -- `activateMonitorConsumer` and the three like it.
  unfoldable pub activate_consumer : Consumer → Exec (CorbaServant Ref) (Unit {0})
  unfolding allocate keep activate_servant_object
  activate_consumer k = do
    allocate k
    obj ← activate_servant_object k
    ref ← λ s. (poa.narrow k obj, s)
    keep k ref

  -- The body of the constructor.
  unfoldable pub construct : Exec (CorbaServant Ref) (Unit {0})
  unfolding activate_consumer
  construct =
      activate_consumer monitor_consumer
      >> activate_consumer alarm_consumer
      >> activate_consumer log_consumer
      >> activate_consumer config_consumer

  -- `deactivateServant`.
  unfoldable pub deactivate_servant : Consumer → Exec (CorbaServant Ref) (Unit {0})
  deactivate_servant k s =
      if s.impl k then swallow_corba (deactivated k (poa.deactivate k) s) else (ok tt, s)

  -- The destructor.
  unfoldable pub destruct : Exec (CorbaServant Ref) (Unit {0})
  unfolding deactivate_servant
  destruct =
      deactivate_servant monitor_consumer
      >> deactivate_servant alarm_consumer
      >> deactivate_servant log_consumer
      >> deactivate_servant config_consumer

-- `getMonitorConsumerObject` and the three like it.
unfoldable pub get_consumer_object : {Ref : Type 0} → Consumer → CorbaServant Ref → Option Ref
get_consumer_object k s = s.ref k
