-- ===== src/Runtime.antt =====
-- src/corba/corba_runtime.cpp: `CorbaRuntime::init`, which starts the ORB and connects the services
-- that the servers use. The ORB is a parameter.
pub mod Init
pub mod Thread
pub mod Present
use api_gateway_gtc.Base.{String, ◌++◌, Bool, true, false, Option, none, some, List, [], ◌∷◌}
use api_gateway_gtc.Base.Outcome.{Outcome, ok, throw, runtime_error, Exec, bind, lift, ◌>>=◌, ◌>>◌}
use api_gateway_gtc.Naming
use api_gateway_gtc.Naming.{NsResolver}
use api_gateway_gtc.Ifr
use api_gateway_gtc.ConfigService
use api_gateway_gtc.ConfigService.{ConfigService, ConfigEnv, initial}

-- `gcs_env::NS_URL`, `gcs_env::IFR_URL` and `gcs_env::GCS_DEV_IP`.
abbrev pub ns_url : String
ns_url = "corbaloc:iiop:1.2@gcs-env:12008/NameService"

abbrev pub ifr_url : String
ifr_url = "corbaloc:iiop:1.2@gcs-env:12005/InterfaceRepository"

abbrev pub gcs_dev_ip : String
gcs_dev_ip = "10.89.0.2"

-- The arguments of `ORB_init`.
unfoldable pub orb_argv : List String
orb_argv = "ApiGatewayGTC" ∷ "-ORBListenEndpoints" ∷ ("iiop://" ++ gcs_dev_ip ++ ":0") ∷ []

-- `ORB_init`, the root POA and its manager (whether a result is not nil), `string_to_object`, and
-- `_narrow` to a naming context and to an interface repository.
pub record Orb (Obj Ctx Repository : Type 0) : Type 0 where
  pub orb_init : List String → Outcome Bool
  pub root_poa : Outcome Bool
  pub activate_manager : Outcome (Unit {0})
  pub string_to_object : String → Outcome (Option Obj)
  pub narrow_context : Obj → Outcome (Option Ctx)
  pub narrow_repository : Obj → Outcome (Option Repository)

-- The members; the thread or a service is there once it is constructed. The repository is the one that the
-- interface client keeps.
pub record CorbaRuntime (Ctx Repository Mgr Repo : Type 0) : Type 0 where
  pub orb : Bool
  pub root_poa : Bool
  pub orb_thread : Bool
  pub ns_resolver : Option (NsResolver Ctx)
  pub ifr_client : Option (Option Repository)
  pub dii_engine : Bool
  pub config_service : Option (ConfigService Mgr Repo)

-- The default constructor: no reference is set, and no service is there.
unfoldable pub blank : {Ctx Repository Mgr Repo : Type 0} → CorbaRuntime Ctx Repository Mgr Repo
blank = record {
  orb = false;
  root_poa = false;
  orb_thread = false;
  ns_resolver = none;
  ifr_client = none;
  dii_engine = false;
  config_service = none;
}

-- `if (CORBA::is_nil(..)) throw std::runtime_error(failure)`.
abbrev pub unless_nil : {S : Type 0} → String → Bool → Exec S (Unit {0})
unless_nil failure true s = (ok tt, s)
unless_nil failure false s = (throw (runtime_error failure), s)

module _ {Ctx Obj Repository Mgr Repo Any : Type 0} (orb : Orb Obj Ctx Repository)
    (env : ConfigEnv Ctx Obj Mgr Repo Any) where
  -- The first lines, up to the root POA.
  unfoldable pub start_orb : Exec (CorbaRuntime Ctx Repository Mgr Repo) (Unit {0})
  unfolding orb_argv
  start_orb s =
      bind (orb.orb_init orb_argv, s)
        λ present t. unless_nil "CorbaRuntime: ORB_init failed" present (record t { orb = present })

  unfoldable pub start_poa : Exec (CorbaRuntime Ctx Repository Mgr Repo) (Unit {0})
  start_poa s =
      bind (orb.root_poa, s)
        λ present t.
          unless_nil "CorbaRuntime: could not resolve RootPOA" present
            (record t { root_poa = present })

  -- `new NsResolver` and its `connect`; the result is the resolver that the later services use.
  unfoldable pub connect_ns : Exec (CorbaRuntime Ctx Repository Mgr Repo) (NsResolver Ctx)
  unfolding Naming.connect
  connect_ns s =
      let r =
        Naming.connect (orb.string_to_object ns_url) orb.narrow_context (record { root = none }) in
      bind (r.0, record s { ns_resolver = some r.1 }) λ u t. (ok r.1, t)

  unfoldable pub connect_ifr : Exec (CorbaRuntime Ctx Repository Mgr Repo) (Unit {0})
  unfolding Ifr.connect
  connect_ifr s =
      let r = Ifr.connect (orb.string_to_object ifr_url) orb.narrow_repository none in
      (r.0, record s { ifr_client = some r.1 })

  -- `new DiiEngine`, and then `new ConfigService` with its `connect`.
  unfoldable pub connect_config :
      NsResolver Ctx → Exec (CorbaRuntime Ctx Repository Mgr Repo) (Unit {0})
  unfolding ConfigService.connect initial
  connect_config ns s =
      let r = ConfigService.connect (record env { ns = ns }) initial in
      (r.0, record s { dii_engine = true; config_service = some r.1 })

  unfoldable pub init : Exec (CorbaRuntime Ctx Repository Mgr Repo) (Unit {0})
  unfolding start_orb start_poa connect_ns connect_ifr connect_config
  init = do
    start_orb
    start_poa
    lift orb.activate_manager
    ns ← connect_ns
    connect_ifr
    connect_config ns
