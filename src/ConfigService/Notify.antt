-- ===== src/ConfigService/Notify.antt =====
-- Reads and writes of properties: which calls go out, and that they have an object to go to.
use api_gateway_gtc.Base.{ℕ, ◌≡◌, refl, Bool, true, false, Option, none, some, ◌⊎◌, inl, inr}
use api_gateway_gtc.Base.Outcome.{
  Outcome, Exn, ok, throw, corba, runtime_error, invalid_argument, is_corba,
}
use api_gateway_gtc.Naming.{resolve}
use api_gateway_gtc.Propagator.Config.{gcs_config_name}
use api_gateway_gtc.ConfigService.{
  ConfigService, ConfigEnv, Property, Answer, answered, gcs_exception, corba_exception, initial,
  take_repository, take_manager, take_object, connect, notified, notify_property_change, after_set,
  set_property,
}

-- A result, or an exception that is not a `CORBA::Exception`.
abbrev pub Caught : Outcome Bool → Type 0
Caught o = ((b : Bool) × (o ≡ ok b)) ⊎ ((e : Exn) × (o ≡ throw e) × (is_corba e ≡ false))

module _ {Ctx Obj Mgr Repo Any : Type 0} (env : ConfigEnv Ctx Obj Mgr Repo Any) where
  -- No repository, or a manager with it.
  abbrev pub HasManager : ConfigService Mgr Repo → Type 0
  HasManager c = (c.repository ≡ none) ⊎ ((manager : Mgr) × (c.manager ≡ some manager))

  take_repository-HasManager :
      (manager : Mgr) (o : Outcome (Option Repo))
      → HasManager (take_repository env manager o initial).1
  unfolding take_repository initial
  take_repository-HasManager manager (throw e) = inl refl
  take_repository-HasManager manager (ok none) = inl refl
  take_repository-HasManager manager (ok (some repository)) = inr (manager, refl)

  take_manager-HasManager : (o : Outcome (Option Mgr)) → HasManager (take_manager env o initial).1
  unfolding take_manager initial
  take_manager-HasManager (throw e) = inl refl
  take_manager-HasManager (ok none) = inl refl
  take_manager-HasManager (ok (some manager)) =
      take_repository-HasManager manager (env.predef_config_repo manager)

  take_object-HasManager : (o : Outcome (Option Obj)) → HasManager (take_object env o initial).1
  unfolding take_object initial
  take_object-HasManager (throw e) = inl refl
  take_object-HasManager (ok none) = inl refl
  take_object-HasManager (ok (some obj)) = take_manager-HasManager (env.narrow obj)

  pub connect-HasManager : HasManager (connect env initial).1
  unfolding connect
  connect-HasManager = take_object-HasManager (resolve env.names env.ns gcs_config_name "")

  notified-Caught : (o : Outcome (Unit {0})) → Caught (notified env o)
  notified-Caught (ok u) = inl (true, refl)
  notified-Caught (throw (corba info)) = inl (true, refl)
  notified-Caught (throw (runtime_error what)) = inr (runtime_error what, refl, refl)
  notified-Caught (throw (invalid_argument what)) = inr (invalid_argument what, refl, refl)

  abbrev Ends : Option (Outcome Bool) → Type 0
  Ends r = (o : Outcome Bool) × (r ≡ some o) × Caught o

  -- A service with no repository, or with a manager: `setProperty` does not call through a nil
  -- reference, and what it throws is not a `CORBA::Exception`.
  pub set_property-some :
      (c : ConfigService Mgr Repo) (property : Property Any) (now_usec : ℕ)
      → HasManager c
      → (o : Outcome Bool) × (set_property env c property now_usec ≡ some o) × Caught o
  unfolding set_property after_set notify_property_change
  set_property-some c property now_usec h = by c.repository refl h
    where
      refused :
          Ends (some (throw (runtime_error "[ConfigService] Not connected - call connect() first")))
      refused = (_, refl, inr (runtime_error _, refl, refl))

      written :
          (manager : Mgr)
          → c.manager ≡ some manager
          → (a : Answer (Unit {0})) → Ends (after_set env c property now_usec a)
      written manager m (answered u) =
          rw (after_set, notify_property_change, m) (_, refl, notified-Caught _)
      written manager m (gcs_exception info) = (_, refl, inl (false, refl))
      written manager m (corba_exception info) = (_, refl, inr (runtime_error _, refl, refl))

      by :
          (r : Option Repo)
          → c.repository ≡ r
          → HasManager c
          → Ends (set_property env c property now_usec)
      by none e h = rw (set_property, e) refused
      by (some repository) e (inl h) = cc
      by (some repository) e (inr (manager, m)) =
          rw (set_property, e) (written manager m (env.set_property repository property))
