-- ===== src/Main/NoServer.antt =====
-- src/server/main.cpp, where the server cannot be started.
use api_gateway_gtc.Base.{◌≡◌, refl, sym, subst, true, false, [], ◌∷◌}
use api_gateway_gtc.Base.Outcome.{Outcome, ok, throw, bind}
use api_gateway_gtc.ConfigService.{ConfigEnv}
use api_gateway_gtc.Servant.{Poa}
use api_gateway_gtc.Gateway.{GatewayService, new_service}
use api_gateway_gtc.Runtime.{Orb, CorbaRuntime, blank, init}
use api_gateway_gtc.Main.{
  Ending, null_server, Host, World, init_process, serve, constructed, started, main,
}
use api_gateway_gtc.Runtime.Thread.{orb_running, OrbCalls, happened, activated, run_in_background}

module _ (TypeCode W : Type 0) {Ctx Obj Repository Mgr Repo Any Ref : Type 0}
    (orb : Orb Obj Ctx Repository) (env : ConfigEnv Ctx Obj Mgr Repo Any) (thread : OrbCalls)
    (poa : Poa Ref) (host : Host) where
  -- The run ends at the null server, with the ORB running.
  abbrev pub NullServer : Ending × World Ctx Repository Mgr Repo TypeCode Ref W → Type 0
  NullServer r = (r.0 ≡ null_server) × (r.1.process.events ≡ orb_running ∷ [])

  serve-NullServer :
      (rt : CorbaRuntime Ctx Repository Mgr Repo) (g : GatewayService TypeCode Ref W)
      → host.server_starts ≡ false
      → NullServer
          (serve orb env thread poa host g (record { runtime = rt; events = orb_running ∷ [] }))
  unfolding serve
  serve-NullServer rt g h = rw (serve, h) (refl, refl)

  activated-NullServer :
      (rt : CorbaRuntime Ctx Repository Mgr Repo) (g : GatewayService TypeCode Ref W)
      → thread.activate ≡ ok 0
      → new_service (record { interface_cache = []; tc_cache = [] }) poa ≡ ok g
      → host.server_starts ≡ false
      → NullServer (
          started orb env thread poa host
            (activated thread.activate (record { runtime = rt; events = [] })))
  unfolding activated happened serve new_service
  activated-NullServer rt g a n h =
      subst
        (λ o.
          NullServer
            (started orb env thread poa host (activated o (record { runtime = rt; events = [] }))))
        (sym a)
        (subst
          (λ o. NullServer (
            constructed orb env thread poa host (record { runtime = rt; events = orb_running ∷ [] })
              o))
          (sym n) (serve-NullServer rt g h))

  -- If the runtime and the service start but the server does not, `main` calls through a null
  -- pointer, with the ORB running.
  main_no_server :
      (g : GatewayService TypeCode Ref W)
      → (init orb env blank).0 ≡ ok tt
      → thread.activate ≡ ok 0
      → new_service (record { interface_cache = []; tc_cache = [] }) poa ≡ ok g
      → host.server_starts ≡ false
      → NullServer (main orb env thread poa host)
  unfolding main init_process run_in_background
  main_no_server g i a n h = by (init orb env blank) i
    where
      by :
          (r : Outcome (Unit {0}) × CorbaRuntime Ctx Repository Mgr Repo)
          → r.0 ≡ ok tt
          → NullServer (
              started orb env thread poa host (
                bind
                  (r.0, record { runtime = r.1; events = [] })
                  (λ u s. run_in_background thread s)))
      by (throw e, rt) q = cc
      by (ok u, rt) q = activated-NullServer (record rt { orb_thread = true }) g a n h
