-- ===== src/ConfigServer/Ends.antt =====
-- How `GetProperty` and `SetProperty` end.
use api_gateway_gtc.Base.{
  arith, ℕ, String, ◌++◌, ◌≡◌, refl, ap, ◌∙◌, Bool, Option, none, some, ◌⊎◌, inl, inr,
}
use api_gateway_gtc.Base.Outcome.{
  Outcome, Status, status_ok, internal, ok, runtime_error, invalid_argument, corba,
}
use api_gateway_gtc.Base.{c_str}
use api_gateway_gtc.Adapter.Any.{Corba, AnyValue, from_corba, to_corba}
use api_gateway_gtc.ConfigService
use api_gateway_gtc.ConfigService.{
  ConfigService, ConfigEnv, Property, Answer, answered, gcs_exception, corba_exception, got,
  initial, connect, notified, after_set, notify_property_change, property_change,
}
use api_gateway_gtc.ConfigService.Notify.{connect-HasManager, set_property-some, Caught}
use api_gateway_gtc.ConfigServer.{get_property, set_property, set_done}

module _ {Any TypeCode Double Float : Type 0} (orb : Corba Any TypeCode Double Float) where
  module _ {Ctx Obj Mgr Repo : Type 0} (env : ConfigEnv Ctx Obj Mgr Repo Any) where
    -- The repository is there and gives the property.
    abbrev pub Given : ConfigService Mgr Repo → String → Property Any → Type 0
    Given c property_name property =
        (repository : Repo) × (c.repository ≡ some repository)
        × (env.get_property repository (c_str property_name) ≡ answered property)

    -- The response with the property's name and its value converted.
    abbrev pub response : Property Any → Status × Option (Property (AnyValue Double Float))
    response property = (
      status_ok,
      some (record {
        name = property.name;
        value = from_corba orb property.value (some (orb.type property.value));
      }),
    )

    -- `GetProperty` never throws: its status is `OK` with the property's name and converted value
    -- when the repository gives the property, and `INTERNAL` with no response exactly when it does
    -- not.
    pub get_property_lem :
        (c : ConfigService Mgr Repo) (property_name : String)
        → ((property : Property Any) × Given c property_name property
            × (get_property orb env c property_name ≡ ok (response property)))
          ⊎ ((what : String) × (get_property orb env c property_name ≡ ok (internal what, none))
              × ((property : Property Any) → ¬ Given c property_name property))
    unfolding get_property ConfigService.get_property
    get_property_lem c property_name = by c.repository refl
      where
        Goal : Type 0
        Goal =
            ((property : Property Any) × Given c property_name property
              × (get_property orb env c property_name ≡ ok (response property)))
            ⊎ ((what : String) × (get_property orb env c property_name ≡ ok (internal what, none))
                × ((property : Property Any) → ¬ Given c property_name property))

        read :
            (repository : Repo)
            → c.repository ≡ some repository
            → (a : Answer (Property Any)) → env.get_property repository (c_str property_name) ≡ a
            → Goal
        read repository e (answered property) f =
            inl (
              property,
              (repository, e, f),
              rw (get_property, ConfigService.get_property, e, f) refl,
            )
        read repository e (gcs_exception info) f = inr (
          "[ConfigService] getProperty GCSException: " ++ info,
          rw (get_property, ConfigService.get_property, e, f) refl,
          λ property g. ground (arith, e, f, g.1, g.2),
        )
        read repository e (corba_exception info) f = inr (
          "[ConfigService] getProperty CORBA exception: " ++ info,
          rw (get_property, ConfigService.get_property, e, f) refl,
          λ property g. ground (arith, e, f, g.1, g.2),
        )

        by : (r : Option Repo) → c.repository ≡ r → Goal
        by none e = inr (
          "[ConfigService] Not connected - call connect() first",
          rw (get_property, ConfigService.get_property, e) refl,
          λ property g. ground (arith, e, g.1),
        )
        by (some repository) e =
            read repository e (env.get_property repository (c_str property_name)) refl

    caught :
        (o : Outcome Bool)
        → Caught o
        → (r : Status × Option Bool) × (set_done orb env (some o) ≡ some (ok r))
    caught o (inl (done, e)) = rw e ((status_ok, some done), refl)
    caught o (inr (runtime_error what, e, h)) = rw e ((internal what, none), refl)
    caught o (inr (invalid_argument what, e, h)) = rw e ((internal what, none), refl)
    caught o (inr (corba name, e, h)) = cc

    -- `SetProperty` after the first `connect`, however that ended, makes no call through a nil
    -- reference and does not throw.
    pub set_property-status :
        (request : Property (AnyValue Double Float)) (now_usec : ℕ)
        → (r : Status × Option Bool) × (set_property orb env
              (connect env initial).1
              request
              now_usec
            ≡ some (ok r))
    unfolding set_property
    set_property-status request now_usec =
        let property : Property Any = record {
          name = c_str request.name;
          value = to_corba orb request.value;
        } in
        let d =
          set_property-some env (connect env initial).1 property now_usec
            (connect-HasManager env) in
        let r = caught d.0 d.2 in (r.0, ap (set_done orb env) d.1 ∙ r.1)
