-- ===== src/Propagator/Ends.antt =====
-- How the parts of `subscribe` and `unsubscribe` end, for every propagator.
use api_gateway_gtc.Base.{◌⊎◌, ℕ, String, ◌≡◌, refl, ◌∙◌, true, ◌∷◌, inl, inr, arith, Bool-cases}
use api_gateway_gtc.Base.Outcome.{Outcome, ok, throw, bind, ◌>>◌, Exn}
use api_gateway_gtc.Registry.{add_entry, remove_entry, has_active_writers}
use api_gateway_gtc.Propagator.{
  Propagator, Env, ensure_connected, add, answered, corba_call, subscribe_key, unsubscribe_id,
}
use api_gateway_gtc.Propagator.Shared.{ensure_connected_frame}

-- How a `subscribe` ends: with a new entry, under the next id; or by an exception, and then the
-- registry is as it was.
abbrev pub Registered :
    {W Call : Type 0} → String → W → Propagator W Call → Outcome ℕ × Propagator W Call → Type 0
Registered key w p r =
    (r.0 ≡ ok p.registry.next_id) × (r.1.registry ≡ (add_entry key w p.registry).0)

abbrev pub Refused : {W Call : Type 0} → Propagator W Call → Outcome ℕ × Propagator W Call → Type 0
Refused p r = (e : Exn) × (r.0 ≡ throw e) × (r.1.registry ≡ p.registry)

module _ {Ctx Obj W Call : Type 0} (env : Env Ctx Obj Call) where
  pub subscribe_key_outcome :
      (key : String) (call : Call) (w : W) (p : Propagator W Call)
      → let r = subscribe_key key (corba_call env call) w p in Registered key w p r ⊎ Refused p r
  unfolding subscribe_key corba_call answered add add_entry
  subscribe_key_outcome key call w p = elim (Bool-cases (has_active_writers key p.registry)) [
    | inl reuse ↦ rw (subscribe_key, reuse) (inl (refl, refl))
    | inr new ↦ rw (subscribe_key, new) (called (env.remote call))
  ]
    where
      called :
          (o : Outcome (Unit {0}))
          → let r = bind (answered call o p) (λ _. add key w) in Registered key w p r ⊎ Refused p r
      called (throw e) = inr (e, refl, refl)
      called (ok u) = inl (refl, refl)

module _ {Ctx Obj W Call : Type 0} (env : Env Ctx Obj Call) (ns_name failure : String) where
  -- The same with `ensureConnected` in front.
  pub connected_outcome :
      (key : String) (call : Call) (w : W) (p : Propagator W Call)
      → let r =
          (ensure_connected env ns_name failure >> subscribe_key key (corba_call env call) w) p in
        Registered key w p r ⊎ Refused p r
  connected_outcome key call w p =
      after (ensure_connected env ns_name failure p) (ensure_connected_frame env ns_name failure p)
    where
      after :
          (o : Outcome (Unit {0}) × Propagator W Call)
          → (o.1.registry ≡ p.registry) × (o.1.accepted ≡ p.accepted)
          → let r = bind o (λ _. subscribe_key key (corba_call env call) w) in
            Registered key w p r ⊎ Refused p r
      after (throw e, q) f = inr (e, refl, f.0)
      after (ok u, q) f = elim (subscribe_key_outcome env key call w q) [
        | inl done ↦ inl (ground arith, ground arith)
        | inr (e, t, same) ↦ inr (e, t, same ∙ f.0)
      ]

  -- The last writer of a key leaves, with the manager reached and answering.
  pub unsubscribe_last :
      (call : Call) (id : ℕ) (p : Propagator W Call)
      → p.connected ≡ true
      → env.remote call ≡ ok tt
      → (remove_entry id p.registry).1 ≡ true
      → unsubscribe_id env ns_name failure (corba_call env call) id p ≡ (
        ok tt,
        record p { registry = (remove_entry id p.registry).0; accepted = call ∷ p.accepted },
      )
  unfolding unsubscribe_id ensure_connected corba_call answered
  unsubscribe_last call id p c r last = ground arith
