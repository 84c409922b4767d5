-- ===== src/Runtime/Init.antt =====
-- What holds once `init` has returned.
use api_gateway_gtc.Base.{◌≡◌, refl, subst, ap, ◌∙◌, sym, true, Option, none, some}
use api_gateway_gtc.Base.Outcome.{Outcome, ok, throw, Exec, bind}
use api_gateway_gtc.Naming
use api_gateway_gtc.Naming.{NsResolver, resolve}
use api_gateway_gtc.Ifr
use api_gateway_gtc.Propagator.Config.{gcs_config_name}
use api_gateway_gtc.ConfigService
use api_gateway_gtc.ConfigService.{
  ConfigService, ConfigEnv, initial, take_object, take_manager, take_repository,
}
use api_gateway_gtc.Runtime.{
  Orb, CorbaRuntime, ns_url, ifr_url, start_orb, start_poa, connect_ns, connect_ifr, connect_config,
  init,
}

-- An action that returns has returned from its first part.
pub bind-ok :
    {S A B : Type 0} (r : Outcome A × S) (f : A → S → Outcome B × S) (b : B)
    → (bind r f).0 ≡ ok b
    → (a : A) × (r.0 ≡ ok a) × (bind r f ≡ f a r.1)
bind-ok (ok a, s) f b h = (a, refl, refl)
bind-ok (throw e, s) f b h = cc

naming_connected :
    {Ctx Obj : Type 0} (o : Outcome (Option Obj)) (narrow : Obj → Outcome (Option Ctx))
    (ns : NsResolver Ctx)
    → (Naming.connect o narrow ns).0 ≡ ok tt
    → (root : Ctx) × ((Naming.connect o narrow ns).1 ≡ record { root = some root })
unfolding Naming.connect
naming_connected (throw e) narrow ns h = cc
naming_connected (ok none) narrow ns h = cc
naming_connected {Ctx} {Obj} (ok (some obj)) narrow ns h = by (narrow obj) refl h
  where
    by :
        (o : Outcome (Option Ctx))
        → narrow obj ≡ o
        → (Naming.connect (ok (some obj)) narrow ns).0 ≡ ok tt
        → (root : Ctx) × ((Naming.connect (ok (some obj)) narrow ns).1
            ≡ record { root = some root })
    by (throw e) q = rw (Naming.connect, q) (λ h. cc)
    by (ok none) q = rw (Naming.connect, q) (λ h. cc)
    by (ok (some root)) q = rw (Naming.connect, q) (λ h. (root, refl))

ifr_connected :
    {Obj Repo : Type 0} (o : Outcome (Option Obj)) (narrow : Obj → Outcome (Option Repo))
    (r : Option Repo)
    → (Ifr.connect o narrow r).0 ≡ ok tt
    → (repo : Repo) × ((Ifr.connect o narrow r).1 ≡ some repo)
unfolding Ifr.connect
ifr_connected (throw e) narrow r h = cc
ifr_connected (ok none) narrow r h = cc
ifr_connected {Obj} {Repo} (ok (some obj)) narrow r h = by (narrow obj) refl h
  where
    by :
        (o : Outcome (Option Repo))
        → narrow obj ≡ o
        → (Ifr.connect (ok (some obj)) narrow r).0 ≡ ok tt
        → (repo : Repo) × ((Ifr.connect (ok (some obj)) narrow r).1 ≡ some repo)
    by (throw e) q = rw (Ifr.connect, q) (λ h. cc)
    by (ok none) q = rw (Ifr.connect, q) (λ h. cc)
    by (ok (some repo)) q = rw (Ifr.connect, q) (λ h. (repo, refl))

module _ {Ctx Obj Mgr Repo Any : Type 0} (env : ConfigEnv Ctx Obj Mgr Repo Any) where
  -- Both references are set.
  abbrev Complete : Outcome (Unit {0}) × ConfigService Mgr Repo → Type 0
  Complete r =
      (manager : Mgr) × (repository : Repo) × (r.1
        ≡ record { manager = some manager; repository = some repository })

  repository_taken :
      (manager : Mgr) (o : Outcome (Option Repo)) (c : ConfigService Mgr Repo)
      → (take_repository env manager o c).0 ≡ ok tt
      → Complete (take_repository env manager o c)
  unfolding take_repository
  repository_taken manager (throw e) c h = cc
  repository_taken manager (ok none) c h = cc
  repository_taken manager (ok (some repository)) c h = (manager, repository, refl)

  manager_taken :
      (o : Outcome (Option Mgr)) (c : ConfigService Mgr Repo)
      → (take_manager env o c).0 ≡ ok tt
      → Complete (take_manager env o c)
  unfolding take_manager
  manager_taken (throw e) c h = cc
  manager_taken (ok none) c h = cc
  manager_taken (ok (some manager)) c h =
      repository_taken manager (env.predef_config_repo manager) c h

  object_taken :
      (o : Outcome (Option Obj)) (c : ConfigService Mgr Repo)
      → (take_object env o c).0 ≡ ok tt
      → Complete (take_object env o c)
  unfolding take_object
  object_taken (throw e) c h = cc
  object_taken (ok none) c h = cc
  object_taken (ok (some obj)) c h = manager_taken (env.narrow obj) c h

  config_connected :
      (c : ConfigService Mgr Repo)
      → (ConfigService.connect env c).0 ≡ ok tt
      → Complete (ConfigService.connect env c)
  unfolding ConfigService.connect
  config_connected c h = object_taken (resolve env.names env.ns gcs_config_name "") c h

module _ {Ctx Obj Repository Mgr Repo Any : Type 0} (orb : Orb Obj Ctx Repository)
    (env : ConfigEnv Ctx Obj Mgr Repo Any) where
  -- The services are there and none is left unconnected.
  abbrev pub Connected : CorbaRuntime Ctx Repository Mgr Repo → Type 0
  Connected s =
      ((root : Ctx) × (s.ns_resolver ≡ some (record { root = some root })))
      × ((repository : Repository) × (s.ifr_client ≡ some (some repository)))
      × (s.dii_engine ≡ true)
      × ((manager : Mgr) × (repo : Repo) × (s.config_service
            ≡ some (record { manager = some manager; repository = some repo })))

  from_config :
      (ns : NsResolver Ctx) (s : CorbaRuntime Ctx Repository Mgr Repo)
      → ((root : Ctx) × (s.ns_resolver ≡ some (record { root = some root })))
      → ((repository : Repository) × (s.ifr_client ≡ some (some repository)))
      → (connect_config orb env ns s).0 ≡ ok tt
      → Connected (connect_config orb env ns s).1
  unfolding connect_config
  from_config ns s n i h =
      let c = config_connected (record env { ns = ns }) initial h in
      (n, i, refl, (c.0, c.1, ap some c.2))

  from_ifr :
      (ns : NsResolver Ctx) (s : CorbaRuntime Ctx Repository Mgr Repo)
      → ((root : Ctx) × (s.ns_resolver ≡ some (record { root = some root })))
      → (bind (connect_ifr orb env s) (λ u. connect_config orb env ns)).0 ≡ ok tt
      → Connected (bind (connect_ifr orb env s) (λ u. connect_config orb env ns)).1
  unfolding connect_ifr
  from_ifr ns s n h =
      let p = bind-ok (connect_ifr orb env s) (λ u. connect_config orb env ns) tt h in
      let i = ifr_connected (orb.string_to_object ifr_url) orb.narrow_repository none p.1 in
      rw p.2 (
        from_config ns (connect_ifr orb env s).1 n (i.0, ap some i.1) (ap (λ r. r.0) (sym p.2) ∙ h))

  -- The end of `init`, from the naming service on.
  abbrev services : Exec (CorbaRuntime Ctx Repository Mgr Repo) (Unit {0})
  services s =
      bind (connect_ns orb env s)
        λ ns t. bind (connect_ifr orb env t) λ u. connect_config orb env ns

  from_ns :
      (s : CorbaRuntime Ctx Repository Mgr Repo) → (services s).0 ≡ ok tt → Connected (services s).1
  unfolding connect_ns
  from_ns s h =
      let r =
        Naming.connect (orb.string_to_object ns_url) orb.narrow_context (record { root = none }) in
      by r
        (naming_connected (orb.string_to_object ns_url) orb.narrow_context (record { root = none }))
        h
    where
      rest : NsResolver Ctx → Exec (CorbaRuntime Ctx Repository Mgr Repo) (Unit {0})
      rest ns t = bind (connect_ifr orb env t) λ u. connect_config orb env ns

      by :
          (r : Outcome (Unit {0}) × NsResolver Ctx)
          → (r.0 ≡ ok tt → (root : Ctx) × (r.1 ≡ record { root = some root }))
          → (bind (bind (r.0, record s { ns_resolver = some r.1 }) (λ u t. (ok r.1, t))) rest).0
            ≡ ok tt
          → Connected
              (bind (bind (r.0, record s { ns_resolver = some r.1 }) (λ u t. (ok r.1, t))) rest).1
      by (throw e, ns) c h = cc
      by (ok u, ns) c h =
          let n = c refl in from_ifr ns (record s { ns_resolver = some ns }) (n.0, ap some n.1) h

  -- When `CorbaRuntime::init` returns, the name service has a root context, the interface client a
  -- repository, and the configuration service a manager and a repository.
  pub init-Connected :
      (s : CorbaRuntime Ctx Repository Mgr Repo)
      → (init orb env s).0 ≡ ok tt
      → Connected (init orb env s).1
  unfolding init
  init-Connected s h =
      let orb_up = bind-ok (start_orb orb env s) _ tt h in
      let h1 = ap (λ r. r.0) (sym orb_up.2) ∙ h in
      let poa_up = bind-ok (start_poa orb env (start_orb orb env s).1) _ tt h1 in
      let h2 = ap (λ r. r.0) (sym poa_up.2) ∙ h1 in
      let active =
        bind-ok (orb.activate_manager, (start_poa orb env (start_orb orb env s).1).1) _ tt h2 in
      let h3 = ap (λ r. r.0) (sym active.2) ∙ h2 in
      subst (λ r. Connected r.1) (sym (orb_up.2 ∙ poa_up.2 ∙ active.2))
        (from_ns (start_poa orb env (start_orb orb env s).1).1 h3)
