-- ===== src/Main.antt =====
-- src/server/main.cpp: `main`, from the start of the runtime to its end.
pub mod Order
pub mod NoServer
use api_gateway_gtc.Base.{ℕ, Bool, true, false, Option, none, some, List, [], ◌∷◌}
use api_gateway_gtc.Base.Outcome.{Outcome, ok, throw, Exn, Exec, bind, lift, ◌>>=◌, ◌>>◌}
use api_gateway_gtc.ConfigService.{ConfigEnv}
use api_gateway_gtc.Servant.{Poa, CorbaServant, destruct}
use api_gateway_gtc.Stream.{Stream}
use api_gateway_gtc.Gateway.{GatewayService, new_service}
use api_gateway_gtc.Runtime.{Orb, CorbaRuntime, blank, init}
use api_gateway_gtc.Runtime.Thread.{
  Event, server_started, server_stopped, OrbCalls, Process, run_in_background, stop,
}

-- How a run of `main` ends: by `return 0`; by an exception that nothing catches; by a call through
-- the null pointer that `BuildAndStart` gives when it fails; or not yet, in `server->Wait()`.
pub data Ending : Type 0 where
  returned : Ending
  uncaught : Exn → Ending
  null_server : Ending
  waiting : Ending

-- Whether `BuildAndStart` gives a server, and whether its `Wait` comes back.
pub record Host : Type 0 where
  pub server_starts : Bool
  pub wait_ends : Bool

-- The local variables, the service once it is constructed.
pub record World (Ctx Repository Mgr Repo TypeCode Ref W : Type 0) : Type 0 where
  pub process : Process Ctx Repository Mgr Repo
  pub service : Option (GatewayService TypeCode Ref W)

-- `corba.init()` on the runtime of the process.
unfoldable pub init_process :
    {Ctx Obj Repository Mgr Repo Any : Type 0}
    → Orb Obj Ctx Repository
    → ConfigEnv Ctx Obj Mgr Repo Any
    → Exec (Process Ctx Repository Mgr Repo) (Unit {0})
unfolding init
init_process orb env s = let r = init orb env s.runtime in (r.0, record s { runtime = r.1 })

module _ {Ctx Obj Repository Mgr Repo Any TypeCode Ref W : Type 0} (orb : Orb Obj Ctx Repository)
    (env : ConfigEnv Ctx Obj Mgr Repo Any) (thread : OrbCalls) (poa : Poa Ref) (host : Host) where
  -- The destructors after `return`: that of the service releases the consumers.
  abbrev pub released :
      World Ctx Repository Mgr Repo TypeCode Ref W
      → GatewayService TypeCode Ref W
      → Outcome (Unit {0}) × CorbaServant Ref
      → Ending × World Ctx Repository Mgr Repo TypeCode Ref W
  released w g (throw e, servant) = (uncaught e, w)
  released w g (ok u, servant) = (
    returned,
    record w { service = some (record g { stream = record g.stream { servant = servant } }) },
  )

  -- The end of `main` after `corba.stop()`.
  abbrev pub stopped :
      GatewayService TypeCode Ref W
      → Outcome (Unit {0}) × Process Ctx Repository Mgr Repo
      → Ending × World Ctx Repository Mgr Repo TypeCode Ref W
  unfolding destruct
  stopped g (throw e, p) = (uncaught e, record { process = p; service = some g })
  stopped g (ok u, p) =
      released (record { process = p; service = some g }) g (destruct poa g.stream.servant)

  -- `BuildAndStart`, `Wait`, `Shutdown` and `corba.stop()`.
  unfoldable pub serve :
      GatewayService TypeCode Ref W
      → Process Ctx Repository Mgr Repo
      → Ending × World Ctx Repository Mgr Repo TypeCode Ref W
  unfolding stop
  serve g p = elim host.server_starts [
    | false ↦ (null_server, record { process = p; service = some g })
    | true ↦
        let up = record p { events = server_started ∷ p.events } in
        elim host.wait_ends [
          | false ↦ (waiting, record { process = up; service = some g })
          | true ↦ stopped g (stop thread (record up { events = server_stopped ∷ up.events }))
        ]
  ]

  abbrev pub constructed :
      Process Ctx Repository Mgr Repo
      → Outcome (GatewayService TypeCode Ref W)
      → Ending × World Ctx Repository Mgr Repo TypeCode Ref W
  unfolding serve
  constructed p (throw e) = (uncaught e, record { process = p; service = none })
  constructed p (ok g) = serve g p

  abbrev pub started :
      Outcome (Unit {0}) × Process Ctx Repository Mgr Repo
      → Ending × World Ctx Repository Mgr Repo TypeCode Ref W
  unfolding new_service
  started (throw e, p) = (uncaught e, record { process = p; service = none })
  started (ok u, p) =
      constructed p (new_service (record { interface_cache = []; tc_cache = [] }) poa)

  unfoldable pub main : Ending × World Ctx Repository Mgr Repo TypeCode Ref W
  unfolding init_process run_in_background
  main =
      started (
        (init_process orb env >> run_in_background thread)
          (record { runtime = blank; events = [] }))
