-- ===== src/ConfigServer.antt =====
-- src/server/config_server.cpp: the class `Config`, which serves the properties to clients.
pub mod Ends
use api_gateway_gtc.Base.{ℕ, String, Bool, Option, none, some, List}
use api_gateway_gtc.Base.Outcome.{Outcome, ok, throw, Status, status_ok, caught_std, and_then}
use api_gateway_gtc.Base.{c_str}
use api_gateway_gtc.Adapter.Any.{Corba, AnyValue, from_corba, to_corba}
use api_gateway_gtc.ConfigService
use api_gateway_gtc.ConfigService.{ConfigService, ConfigEnv, Property}

module _ {Any TypeCode Double Float : Type 0} (corba : Corba Any TypeCode Double Float) where
  module _ {Ctx Obj Mgr Repo : Type 0} (env : ConfigEnv Ctx Obj Mgr Repo Any) where
    -- The `try` block of `GetProperty` after the read: the status and the response.
    abbrev pub answer : Property Any → Outcome (Status × Option (Property (AnyValue Double Float)))
    answer property = ok (
      status_ok,
      some (record {
        name = property.name;
        value = from_corba corba property.value (some (corba.type property.value));
      }),
    )

    unfoldable pub get_property :
        ConfigService Mgr Repo
        → String
        → Outcome (Status × Option (Property (AnyValue Double Float)))
    unfolding ConfigService.get_property from_corba
    get_property c property_name =
        caught_std none (and_then (ConfigService.get_property env c property_name) answer)

    abbrev pub set_done : Option (Outcome Bool) → Option (Outcome (Status × Option Bool))
    set_done none = none
    set_done (some o) = some (caught_std none (and_then o (λ done. ok (status_ok, some done))))

    unfoldable pub set_property :
        ConfigService Mgr Repo
        → Property (AnyValue Double Float)
        → ℕ
        → Option (Outcome (Status × Option Bool))
    unfolding ConfigService.set_property to_corba c_str
    set_property c property now_usec = set_done (
        ConfigService.set_property env c
          (record { name = c_str property.name; value = to_corba corba property.value }) now_usec)
