-- ===== src/ConfigService.antt =====
-- src/corba/Config/config_service.cpp: the class `ConfigService`. The configuration manager and its
-- repository of properties are parameters: `Mgr` and `Repo` are references to them.
pub mod Split
pub mod Announced
pub mod Notify
use Prim.Native.Char.{Char}
use api_gateway_gtc.Base.{
  ℕ, String, ◌++◌, Bool, true, false, Option, none, some, List, [], ◌∷◌, code, nat_eq,
  if◌then◌else◌,
}
use api_gateway_gtc.Base.Outcome.{Outcome, ok, throw, runtime_error, invalid_argument, corba}
use api_gateway_gtc.Naming.{NamingService, NsResolver, resolve}
use api_gateway_gtc.Propagator.Config.{gcs_config_name}
use api_gateway_gtc.Base.{c_str}
use api_gateway_gtc.Adapter.Events.{TimeValue, PropertyChange}

-- `CONFIG::Property`.
pub record Property (Any : Type 0) : Type 0 where
  pub name : String
  pub value : Any

-- How the repository answers: `DGT::GCSException` is caught before the other CORBA exceptions.
pub data Answer (A : Type 0) : Type 0 where
  answered : A → Answer A
  gcs_exception : String → Answer A
  corba_exception : String → Answer A

pub record ConfigEnv (Ctx Obj Mgr Repo Any : Type 0) : Type 0 where
  pub names : NamingService Ctx Obj
  pub ns : NsResolver Ctx
  pub narrow : Obj → Outcome (Option Mgr)
  pub predef_config_repo : Mgr → Outcome (Option Repo)
  pub get_property : Repo → String → Answer (Property Any)
  pub set_property : Repo → Property Any → Answer (Unit {0})
  pub receive_property_changes : Mgr → List PropertyChange → Outcome (Unit {0})

-- The two references that the class keeps, nil at first.
pub record ConfigService (Mgr Repo : Type 0) : Type 0 where
  pub manager : Option Mgr
  pub repository : Option Repo

unfoldable pub initial : {Mgr Repo : Type 0} → ConfigService Mgr Repo
initial = record { manager = none; repository = none }

-- The text before the last dot and the text behind it, as `find_last_of` and `substr` cut them.
unfoldable pub split_last : String → Option (String × String)
split_last String.[] = none
split_last (String.◌∷◌ c s) = elim (split_last s) [
  | some parts ↦ some (String.◌∷◌ c parts.0, parts.1)
  | none ↦ if nat_eq (code c) b'.' then some (String.[], s) else none
]

-- The change that `notifyPropertyChange` makes up. The full name is that of a CORBA string, which has
-- no NUL, so `c_str` would cut nothing off.
unfoldable pub property_change : String → ℕ → PropertyChange
unfolding split_last
property_change full_name now_usec = elim (split_last full_name) [
  | none ↦ record {
    gcs_component = "";
    property_name = full_name;
    time_stamp = record { usec = now_usec };
  }
  | some parts ↦ record {
    gcs_component = parts.0;
    property_name = parts.1;
    time_stamp = record { usec = now_usec };
  }
]

module _ {Ctx Obj Mgr Repo Any : Type 0} (env : ConfigEnv Ctx Obj Mgr Repo Any) where
  -- The rest of `connect`, on what the call before it gives. A nil result is stored before it is
  -- tested.
  unfoldable pub take_repository :
      Mgr
      → Outcome (Option Repo)
      → ConfigService Mgr Repo
      → Outcome (Unit {0}) × ConfigService Mgr Repo
  take_repository manager (throw e) c = (throw e, record c { manager = some manager })
  take_repository manager (ok none) c = (
    throw (runtime_error "[ConfigService] predefConfigRepo() returned nil"),
    record { manager = some manager; repository = none },
  )
  take_repository manager (ok (some repository)) c =
      (ok tt, record { manager = some manager; repository = some repository })

  unfoldable pub take_manager :
      Outcome (Option Mgr) → ConfigService Mgr Repo → Outcome (Unit {0}) × ConfigService Mgr Repo
  unfolding take_repository
  take_manager (throw e) c = (throw e, c)
  take_manager (ok none) c = (
    throw (runtime_error "[ConfigService] reference is not a CONFIG::Manager_ifce"),
    record c { manager = none },
  )
  take_manager (ok (some manager)) c = take_repository manager (env.predef_config_repo manager) c

  unfoldable pub take_object :
      Outcome (Option Obj) → ConfigService Mgr Repo → Outcome (Unit {0}) × ConfigService Mgr Repo
  unfolding take_manager
  take_object (throw e) c = (throw e, c)
  take_object (ok none) c =
      (throw (runtime_error "[ConfigService] string_to_object returned nil"), c)
  take_object (ok (some obj)) c = take_manager (env.narrow obj) c

  unfoldable pub connect : ConfigService Mgr Repo → Outcome (Unit {0}) × ConfigService Mgr Repo
  unfolding take_object
  connect c = take_object (resolve env.names env.ns gcs_config_name "") c

  abbrev pub got : Answer (Property Any) → Outcome (Property Any)
  got (answered property) = ok property
  got (gcs_exception info) =
      throw (runtime_error ("[ConfigService] getProperty GCSException: " ++ info))
  got (corba_exception info) =
      throw (runtime_error ("[ConfigService] getProperty CORBA exception: " ++ info))

  unfoldable pub get_property : ConfigService Mgr Repo → String → Outcome (Property Any)
  get_property c property_name = elim c.repository [
    | none ↦ throw (runtime_error "[ConfigService] Not connected - call connect() first")
    | some repository ↦ got (env.get_property repository (c_str property_name))
  ]

  -- The `try` block of `notifyPropertyChange` swallows a `CORBA::Exception`.
  abbrev pub notified : Outcome (Unit {0}) → Outcome Bool
  notified (ok u) = ok true
  notified (throw (corba info)) = ok true
  notified (throw (runtime_error what)) = throw (runtime_error what)
  notified (throw (invalid_argument what)) = throw (invalid_argument what)

  -- The call of `notifyPropertyChange`, which goes through the manager's reference: `none` stands
  -- for the undefined behaviour of a call through a nil one.
  unfoldable pub notify_property_change :
      ConfigService Mgr Repo → String → ℕ → Option (Outcome Bool)
  unfolding property_change
  notify_property_change c full_name now_usec = elim c.manager [
    | none ↦ none
    | some manager ↦
        some (
          notified (env.receive_property_changes manager (property_change full_name now_usec ∷ [])))
  ]

  unfoldable pub after_set :
      ConfigService Mgr Repo → Property Any → ℕ → Answer (Unit {0}) → Option (Outcome Bool)
  unfolding notify_property_change
  after_set c property now_usec (answered u) = notify_property_change c property.name now_usec
  after_set c property now_usec (gcs_exception info) = some (ok false)
  after_set c property now_usec (corba_exception info) =
      some (throw (runtime_error ("[ConfigService] setProperty CORBA exception: " ++ info)))

  unfoldable pub set_property : ConfigService Mgr Repo → Property Any → ℕ → Option (Outcome Bool)
  unfolding after_set
  set_property c property now_usec = elim c.repository [
    | none ↦ some (throw (runtime_error "[ConfigService] Not connected - call connect() first"))
    | some repository ↦ after_set c property now_usec (env.set_property repository property)
  ]
