-- ===== src/Servant/Life.antt =====
-- From the constructor to the destructor.
use api_gateway_gtc.Base.{◌≡◌, refl, true, false, some, List, [], ◌∷◌, if◌then◌else◌}
use api_gateway_gtc.Base.Outcome.{ok, throw, Exn}
use api_gateway_gtc.Servant.{
  same_consumer, Consumer, monitor_consumer, alarm_consumer, log_consumer, config_consumer, Poa,
  CorbaServant, blank, allocate, keep, inactive, activate_servant_object, activate_consumer,
  construct, deactivate_servant, destruct, get_consumer_object,
}

module _ {Ref : Type 0} (poa : Poa Ref) (refs : Consumer → Ref) where
  -- What a successful activation leaves.
  after : Consumer → CorbaServant Ref → CorbaServant Ref
  after k s = record {
    impl = λ j. if same_consumer k j then true else s.impl j;
    ref = λ j. if same_consumer k j then some (refs k) else s.ref j;
    active = k ∷ s.active;
  }

  activate_consumer-after :
      (k : Consumer) (s : CorbaServant Ref)
      → poa.activate k ≡ ok tt
      → poa.reference k ≡ ok (refs k)
      → poa.narrow k (refs k) ≡ ok (some (refs k))
      → activate_consumer poa k s ≡ (ok tt, after k s)
  unfolding activate_consumer allocate keep activate_servant_object after
  activate_consumer-after k s a r n = rw (a, r, n) refl

  all_active : CorbaServant Ref
  all_active =
      after config_consumer
        (after log_consumer (after alarm_consumer (after monitor_consumer blank)))

  construct-all_active :
      ((k : Consumer) → poa.activate k ≡ ok tt)
      → ((k : Consumer) → poa.reference k ≡ ok (refs k))
      → ((k : Consumer) → poa.narrow k (refs k) ≡ ok (some (refs k)))
      → construct poa blank ≡ (ok tt, all_active)
  unfolding construct all_active
  construct-all_active a r n =
      let done =
        λ (k : Consumer) (s : CorbaServant Ref). activate_consumer-after k s (a k) (r k) (n k) in
      rw
        (
          construct,
          done monitor_consumer blank,
          done alarm_consumer (after monitor_consumer blank),
          done log_consumer (after alarm_consumer (after monitor_consumer blank)),
          done config_consumer
              (after log_consumer (after alarm_consumer (after monitor_consumer blank))),
        )
        refl

  references : (k : Consumer) → get_consumer_object k all_active ≡ some (refs k)
  unfolding get_consumer_object all_active after
  references monitor_consumer = refl
  references alarm_consumer = refl
  references log_consumer = refl
  references config_consumer = refl

  -- With an object adapter that answers every call, the constructor of `CorbaServant` returns with
  -- the four consumers active and their references handed out, and after the destructor none of
  -- them is active.
  pub construct-destruct :
      ((k : Consumer) → poa.activate k ≡ ok tt)
      → ((k : Consumer) → poa.reference k ≡ ok (refs k))
      → ((k : Consumer) → poa.narrow k (refs k) ≡ ok (some (refs k)))
      → ((k : Consumer) → poa.deactivate k ≡ ok tt)
      → let s = construct poa blank in
        (s.0 ≡ ok tt)
        × ((k : Consumer) → get_consumer_object k s.1 ≡ some (refs k))
        × (s.1.active ≡ config_consumer ∷ log_consumer ∷ alarm_consumer ∷ monitor_consumer ∷ [])
        × ((destruct poa s.1).1.active ≡ [])
  unfolding all_active after blank destruct deactivate_servant inactive
  construct-destruct a r n d = rw (construct-all_active a r n) (
    refl,
    references,
    refl,
    rw (destruct, d monitor_consumer, d alarm_consumer, d log_consumer, d config_consumer) refl,
  )

  -- The consumers that are activated before one, the latest first.
  abbrev pub activated_before : Consumer → List Consumer
  activated_before monitor_consumer = []
  activated_before alarm_consumer = monitor_consumer ∷ []
  activated_before log_consumer = alarm_consumer ∷ monitor_consumer ∷ []
  activated_before config_consumer = log_consumer ∷ alarm_consumer ∷ monitor_consumer ∷ []

  activate_consumer-throw :
      (k : Consumer) (s : CorbaServant Ref) (e : Exn)
      → poa.activate k ≡ throw e
      → ((activate_consumer poa k s).0 ≡ throw e)
        × ((activate_consumer poa k s).1.active ≡ s.active)
  unfolding activate_consumer allocate activate_servant_object
  activate_consumer-throw k s e a =
      rw (activate_consumer, allocate, activate_servant_object, a) (refl, refl)

  -- If the adapter refuses one consumer and answers all else, the constructor of `CorbaServant`
  -- throws, and the consumers before that one are left active.
  pub construct-throw :
      (k : Consumer) (e : Exn)
      → ((j : Consumer) → same_consumer j k ≡ false → poa.activate j ≡ ok tt)
      → ((j : Consumer) → poa.reference j ≡ ok (refs j))
      → ((j : Consumer) → poa.narrow j (refs j) ≡ ok (some (refs j)))
      → poa.activate k ≡ throw e
      → ((construct poa blank).0 ≡ throw e) × ((construct poa blank).1.active ≡ activated_before k)
  unfolding construct blank after activate_consumer allocate activate_servant_object
  construct-throw monitor_consumer e a r n t = rw (construct, t) (refl, refl)
  construct-throw alarm_consumer e a r n t =
      rw
        (
          construct,
          activate_consumer-after monitor_consumer blank (a monitor_consumer refl) (r _) (n _),
          t,
        )
        (refl, refl)
  construct-throw log_consumer e a r n t =
      rw
        (
          construct,
          activate_consumer-after monitor_consumer blank (a monitor_consumer refl) (r _) (n _),
          activate_consumer-after alarm_consumer (after monitor_consumer blank)
              (a alarm_consumer refl) (r _) (n _),
          t,
        )
        (refl, refl)
  construct-throw config_consumer e a r n t =
      rw
        (
          construct,
          activate_consumer-after monitor_consumer blank (a monitor_consumer refl) (r _) (n _),
          activate_consumer-after alarm_consumer (after monitor_consumer blank)
              (a alarm_consumer refl) (r _) (n _),
          activate_consumer-after log_consumer (after alarm_consumer (after monitor_consumer blank))
              (a log_consumer refl) (r _) (n _),
          t,
        )
        (refl, refl)
