-- ===== src/Main/Order.antt =====
-- In which order a run of `main` starts and ends the parts.
use api_gateway_gtc.Base.{
  ◌≡◌, refl, Bool, true, false, some, List, [], ◌∷◌, append, ◌⊎◌, inl, inr, ◌≢◌, if◌then◌else◌,
  nat_eq, ℕ,
}
use api_gateway_gtc.Base.Outcome.{runtime_error, Outcome, ok, throw, Exn, bind}
use api_gateway_gtc.ConfigService.{ConfigEnv}
use api_gateway_gtc.Servant.{Poa, CorbaServant, destruct}
use api_gateway_gtc.Gateway.{GatewayService, new_service}
use api_gateway_gtc.Runtime.{Orb, CorbaRuntime, blank, init}
use api_gateway_gtc.Runtime.Init.{Connected, init-Connected}
use api_gateway_gtc.Runtime.Present.{init-present}
use api_gateway_gtc.Main.{
  Ending, returned, Host, World, init_process, released, stopped, serve, constructed, started, main,
}
use api_gateway_gtc.Runtime.Thread.{
  Event, orb_running, server_started, server_stopped, orb_shutdown, thread_ended, orb_destroyed,
  OrbCalls, Process, happened, joined, activated, run_in_background, stop,
}

-- The list ends with the other.
abbrev pub IsSuffix : List Event → List Event → Type 0
IsSuffix events all = (later : List Event) × (append later events ≡ all)

module _ {Ctx Repository Mgr Repo : Type 0} (thread : OrbCalls) where
  -- `stop` with an ORB and its thread: all three events in order, or an exception and the first of
  -- them; the runtime stays as it was.
  abbrev StopEnd :
      Process Ctx Repository Mgr Repo
      → Outcome (Unit {0}) × Process Ctx Repository Mgr Repo
      → Type 0
  StopEnd s r =
      let all = orb_destroyed ∷ thread_ended ∷ orb_shutdown ∷ s.events in
      (r ≡ (ok tt, record s { events = all }))
      ⊎ ((e : Exn) × (events : List Event) × (r ≡ (throw e, record s { events = events }))
          × IsSuffix events all)

  stop-StopEnd :
      (s : Process Ctx Repository Mgr Repo)
      → s.runtime.orb ≡ true
      → s.runtime.orb_thread ≡ true
      → StopEnd s (stop thread s)
  unfolding stop happened joined
  stop-StopEnd s h t = by thread.shutdown refl thread.wait refl thread.destroy refl
    where
      by :
          (a : Outcome (Unit {0}))
          → thread.shutdown ≡ a
          → (b : Outcome (Unit {0})) → thread.wait ≡ b
          → (c : Outcome (Unit {0})) → thread.destroy ≡ c
          → StopEnd s (stop thread s)
      by (throw e) p b q c r =
          rw (stop, h, p)
            (inr (e, s.events, refl, (orb_destroyed ∷ thread_ended ∷ orb_shutdown ∷ [], refl)))
      by (ok u) p (throw e) q c r =
          rw (stop, h, p, joined, t, q)
            (inr (e, orb_shutdown ∷ s.events, refl, (orb_destroyed ∷ thread_ended ∷ [], refl)))
      by (ok u) p (ok v) q (throw e) r =
          rw (stop, h, p, joined, t, q, r)
            (inr (e, thread_ended ∷ orb_shutdown ∷ s.events, refl, (orb_destroyed ∷ [], refl)))
      by (ok u) p (ok v) q (ok w) r = rw (stop, h, p, joined, t, q, r) (inl refl)

-- All that happens in a run that returns, the latest first.
abbrev pub full : List Event
full =
    orb_destroyed ∷ thread_ended ∷ orb_shutdown ∷ server_stopped ∷ server_started ∷ orb_running ∷ []

module _ {Ctx Obj Repository Mgr Repo Any TypeCode Ref W : Type 0} (orb : Orb Obj Ctx Repository)
    (env : ConfigEnv Ctx Obj Mgr Repo Any) (thread : OrbCalls) (poa : Poa Ref) (host : Host) where
  -- What has happened is an initial part of all, and all if `main` has returned; and nothing happens
  -- to a runtime that is not connected.
  abbrev pub InOrder : Ending × World Ctx Repository Mgr Repo TypeCode Ref W → Type 0
  InOrder r =
      IsSuffix r.1.process.events full
      × (r.0 ≡ returned → r.1.process.events ≡ full)
      × (r.1.process.events ≢ [] → Connected orb env r.1.process.runtime)

  released-InOrder :
      (rt : CorbaRuntime Ctx Repository Mgr Repo) (g : GatewayService TypeCode Ref W)
      (o : Outcome (Unit {0}) × CorbaServant Ref)
      → Connected orb env rt
      → InOrder (
          released orb env thread poa host
            (record { process = record { runtime = rt; events = full }; service = some g })
            g
            o)
  unfolding destruct
  released-InOrder rt g (throw e, servant) c = (([], refl), λ h. refl, λ h. c)
  released-InOrder rt g (ok u, servant) c = (([], refl), λ h. refl, λ h. c)

  stopped-InOrder :
      (rt : CorbaRuntime Ctx Repository Mgr Repo) (g : GatewayService TypeCode Ref W)
      → let s : Process Ctx Repository Mgr Repo = record {
        runtime = rt;
        events = server_stopped ∷ server_started ∷ orb_running ∷ [];
      } in
        (r : Outcome (Unit {0}) × Process Ctx Repository Mgr Repo)
        → StopEnd thread s r
        → Connected orb env rt
        → InOrder (stopped orb env thread poa host g r)
  unfolding destruct
  stopped-InOrder rt g r (inl e) c = rw e (released-InOrder rt g (destruct poa g.stream.servant) c)
  stopped-InOrder rt g r (inr (e, events, q, part)) c = rw q (part, (λ h. cc), λ h. c)

  serve-InOrder :
      (rt : CorbaRuntime Ctx Repository Mgr Repo) (g : GatewayService TypeCode Ref W)
      → rt.orb ≡ true
      → rt.orb_thread ≡ true
      → Connected orb env rt
      → InOrder
          (serve orb env thread poa host g (record { runtime = rt; events = orb_running ∷ [] }))
  unfolding serve
  serve-InOrder rt g present threaded c = by host.server_starts refl host.wait_ends refl
    where
      by :
          (a : Bool)
          → host.server_starts ≡ a
          → (b : Bool) → host.wait_ends ≡ b
          → InOrder
              (serve orb env thread poa host g (record { runtime = rt; events = orb_running ∷ [] }))
      by false p b q =
          rw (serve, p)
            (
              (
                orb_destroyed ∷ thread_ended ∷ orb_shutdown ∷ server_stopped ∷ server_started ∷ [],
                refl,
              ),
              (λ h. cc),
              λ h. c,
            )
      by true p false q =
          rw (serve, p, q)
            (
              (orb_destroyed ∷ thread_ended ∷ orb_shutdown ∷ server_stopped ∷ [], refl),
              (λ h. cc),
              λ h. c,
            )
      by true p true q =
          rw (serve, p, q) (stopped-InOrder rt g _ (stop-StopEnd thread _ present threaded) c)

  constructed-InOrder :
      (rt : CorbaRuntime Ctx Repository Mgr Repo)
      → rt.orb ≡ true
      → rt.orb_thread ≡ true
      → Connected orb env rt
      → (o : Outcome (GatewayService TypeCode Ref W))
      → InOrder (
          constructed orb env thread poa host
            (record { runtime = rt; events = orb_running ∷ [] })
            o)
  unfolding serve
  constructed-InOrder rt present threaded c (throw e) = (
    (orb_destroyed ∷ thread_ended ∷ orb_shutdown ∷ server_stopped ∷ server_started ∷ [], refl),
    (λ h. cc),
    λ h. c,
  )
  constructed-InOrder rt present threaded c (ok g) = serve-InOrder rt g present threaded c

module _ (TypeCode W : Type 0) {Ctx Obj Repository Mgr Repo Any Ref : Type 0}
    (orb : Orb Obj Ctx Repository) (env : ConfigEnv Ctx Obj Mgr Repo Any) (thread : OrbCalls)
    (poa : Poa Ref) (host : Host) where
  -- The runtime is up; the thread is activated.
  activated-InOrder :
      (rt : CorbaRuntime Ctx Repository Mgr Repo)
      → rt.orb ≡ true
      → rt.orb_thread ≡ true
      → Connected orb env rt
      → (o : Outcome ℕ)
      → InOrder {TypeCode = TypeCode} {W = W} orb env thread poa host
          (started orb env thread poa host (activated o (record { runtime = rt; events = [] })))
  unfolding activated happened new_service serve
  activated-InOrder rt present threaded c (throw e) =
      ((full, refl), (λ h. cc), λ h. absurd (h refl))
  activated-InOrder rt present threaded c (ok result) = by (nat_eq result 0)
    where
      by :
          (b : Bool)
          → InOrder {TypeCode = TypeCode} {W = W} orb env thread poa host (
              started orb env thread poa host (
                if b then happened orb_running (ok tt) (record { runtime = rt; events = [] }) else (
                  throw (runtime_error "CorbaRuntime: could not activate ORB thread"),
                  (record { runtime = rt; events = [] }),
                )))
      by true =
          constructed-InOrder orb env thread poa host rt present threaded c
            (new_service (record { interface_cache = []; tc_cache = [] }) poa)
      by false = ((full, refl), (λ h. cc), λ h. absurd (h refl))

  -- However a run of `main` ends, what has happened is an initial part of this order: the ORB
  -- runs, the server starts, the server stops, the ORB is shut down, its thread has ended, the ORB
  -- is destroyed; it is all of it if `main` has returned; and if anything has happened, the
  -- runtime is connected.
  pub main-InOrder :
      InOrder {TypeCode = TypeCode} {W = W} orb env thread poa host (main orb env thread poa host)
  unfolding main init_process run_in_background new_service serve
  main-InOrder = by (init orb env blank) (init-present orb env blank) (init-Connected orb env blank)
    where
      by :
          (r : Outcome (Unit {0}) × CorbaRuntime Ctx Repository Mgr Repo)
          → (r.0 ≡ ok tt → r.1.orb ≡ true)
          → (r.0 ≡ ok tt → Connected orb env r.1)
          → InOrder {TypeCode = TypeCode} {W = W} orb env thread poa host (
              started orb env thread poa host (
                bind
                  (r.0, record { runtime = r.1; events = [] })
                  (λ u s. run_in_background thread s)))
      by (throw e, rt) present c = ((full, refl), (λ h. cc), λ h. absurd (h refl))
      by (ok u, rt) present c =
          activated-InOrder (record rt { orb_thread = true }) (present refl) refl (c refl)
            thread.activate
