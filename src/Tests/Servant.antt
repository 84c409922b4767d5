-- ===== src/Tests/Servant.antt =====
-- The consumers in an adapter that answers.
use api_gateway_gtc.Base.{ℕ, ◌≡◌, refl, false, some, [], ◌∷◌, if◌then◌else◌}
use api_gateway_gtc.Base.Outcome.{ok, throw, corba}
use api_gateway_gtc.Servant.{
  Consumer, monitor_consumer, alarm_consumer, log_consumer, config_consumer, Poa, blank, construct,
  same_consumer, destruct, get_consumer_object,
}
use api_gateway_gtc.Servant.Life.{construct-destruct, construct-throw}

abbrev reference_of : Consumer → ℕ
reference_of monitor_consumer = 1
reference_of alarm_consumer = 2
reference_of log_consumer = 3
reference_of config_consumer = 4

abbrev pub adapter : Poa ℕ
adapter = record {
  activate = λ k. ok tt;
  reference = λ k. ok (reference_of k);
  narrow = λ k r. ok (some r);
  deactivate = λ k. ok tt;
}

construct-destruct_example :
    let s = construct adapter blank in
    (s.0 ≡ ok tt)
    × ((k : Consumer) → get_consumer_object k s.1 ≡ some (reference_of k))
    × (s.1.active ≡ config_consumer ∷ log_consumer ∷ alarm_consumer ∷ monitor_consumer ∷ [])
    × ((destruct adapter s.1).1.active ≡ [])
construct-destruct_example =
    construct-destruct adapter reference_of (λ k. refl) (λ k. refl) (λ k. refl) (λ k. refl)

-- An adapter that does not take the log consumer.
abbrev refusing : Poa ℕ
refusing = record {
  activate = λ k. if same_consumer k log_consumer then throw (corba "WrongPolicy") else ok tt;
  reference = λ k. ok (reference_of k);
  narrow = λ k r. ok (some r);
  deactivate = λ k. ok tt;
}

refusing-others :
    (j : Consumer) → same_consumer j log_consumer ≡ false → refusing.activate j ≡ ok tt
refusing-others monitor_consumer h = refl
refusing-others alarm_consumer h = refl
refusing-others log_consumer h = cc
refusing-others config_consumer h = refl

construct-throw_example :
    ((construct refusing blank).0 ≡ throw (corba "WrongPolicy"))
    × ((construct refusing blank).1.active ≡ alarm_consumer ∷ monitor_consumer ∷ [])
construct-throw_example =
    construct-throw refusing reference_of log_consumer (corba "WrongPolicy") refusing-others
      (λ j. refl) (λ j. refl) refl
