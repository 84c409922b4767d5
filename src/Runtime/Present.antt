-- ===== src/Runtime/Present.antt =====
-- The reference to the ORB in `init`.
use api_gateway_gtc.Base.{◌≡◌, refl, ap, ◌∙◌, Bool, true, false}
use api_gateway_gtc.Base.Outcome.{Outcome, ok, throw, Exec, bind, lift}
use api_gateway_gtc.Naming.{NsResolver}
use api_gateway_gtc.ConfigService.{ConfigEnv}
use api_gateway_gtc.Runtime.{
  Orb, CorbaRuntime, orb_argv, start_orb, start_poa, connect_ns, connect_ifr, connect_config, init,
}
use api_gateway_gtc.Runtime.Init.{bind-ok}

module _ {Ctx Repository Mgr Repo : Type 0} where
  -- A step that leaves the reference to the ORB alone, whether it returns or throws.
  abbrev KeepsOrb : {A : Type 0} → Exec (CorbaRuntime Ctx Repository Mgr Repo) A → Type 0
  KeepsOrb m = (s : CorbaRuntime Ctx Repository Mgr Repo) → (m s).1.orb ≡ s.orb

  orb-bind :
      {A B : Type 0} (r : Outcome A × CorbaRuntime Ctx Repository Mgr Repo)
      (f : A → Exec (CorbaRuntime Ctx Repository Mgr Repo) B)
      → ((a : A) → KeepsOrb (f a))
      → (bind r f).1.orb ≡ r.1.orb
  orb-bind (ok a, s) f k = k a s
  orb-bind (throw e, s) f k = refl

module _ {Ctx Obj Repository Mgr Repo Any : Type 0} (orb : Orb Obj Ctx Repository)
    (env : ConfigEnv Ctx Obj Mgr Repo Any) where
  start_poa-KeepsOrb : KeepsOrb (start_poa orb env)
  unfolding start_poa
  start_poa-KeepsOrb s = by orb.root_poa refl
    where
      by : (o : Outcome Bool) → orb.root_poa ≡ o → (start_poa orb env s).1.orb ≡ s.orb
      by (throw e) q = rw (start_poa, q) refl
      by (ok true) q = rw (start_poa, q) refl
      by (ok false) q = rw (start_poa, q) refl

  connect_ns-KeepsOrb : KeepsOrb (connect_ns orb env)
  unfolding connect_ns
  connect_ns-KeepsOrb s = orb-bind _ _ (λ u t. refl)

  connect_ifr-KeepsOrb : KeepsOrb (connect_ifr orb env)
  unfolding connect_ifr
  connect_ifr-KeepsOrb s = refl

  connect_config-KeepsOrb : (ns : NsResolver Ctx) → KeepsOrb (connect_config orb env ns)
  unfolding connect_config
  connect_config-KeepsOrb ns s = refl

  start_orb-present :
      (s : CorbaRuntime Ctx Repository Mgr Repo)
      → (start_orb orb env s).0 ≡ ok tt
      → (start_orb orb env s).1.orb ≡ true
  unfolding start_orb
  start_orb-present s = by (orb.orb_init orb_argv) refl
    where
      by :
          (o : Outcome Bool)
          → orb.orb_init orb_argv ≡ o
          → (start_orb orb env s).0 ≡ ok tt
          → (start_orb orb env s).1.orb ≡ true
      by (throw e) q = rw (start_orb, q) (λ h. cc)
      by (ok true) q = rw (start_orb, q) (λ h. refl)
      by (ok false) q = rw (start_orb, q) (λ h. cc)

  -- When `init` returns, the runtime has an ORB.
  pub init-present :
      (s : CorbaRuntime Ctx Repository Mgr Repo)
      → (init orb env s).0 ≡ ok tt
      → (init orb env s).1.orb ≡ true
  unfolding init
  init-present s h =
      let up = bind-ok (start_orb orb env s) _ tt h in
      let rest =
        orb-bind (start_poa orb env (start_orb orb env s).1) _ (λ u t.
          orb-bind (lift orb.activate_manager t) _ (λ u t.
            orb-bind (connect_ns orb env t) _ (λ ns t.
              orb-bind (connect_ifr orb env t) _ (λ u t. connect_config-KeepsOrb ns t)
              ∙ connect_ifr-KeepsOrb t)
            ∙ connect_ns-KeepsOrb t))
        ∙ start_poa-KeepsOrb (start_orb orb env s).1 in
      ap (λ r. r.1.orb) up.2 ∙ rest ∙ start_orb-present s up.1
