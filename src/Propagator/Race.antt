-- ===== src/Propagator/Race.antt =====
-- Two requests at once. The registry's mutex is held inside each of its methods alone, so another
-- thread can run between `hasActiveWriters`, the manager's call and `addEntry`, and between
-- `removeEntry` and the manager's call.
use api_gateway_gtc.Base.{ℕ, String, ◌≡◌, refl, Bool, true, false, ◌∷◌, arith, if◌then◌else◌}
use api_gateway_gtc.Base.Outcome.{Outcome, ok, throw, bind, swallow_corba, ◌>>◌}
use api_gateway_gtc.Registry.{add_entry, remove_entry, has_active_writers}
use api_gateway_gtc.Propagator.{
  Propagator, Env, ensure_connected, corba_call, answered, add, subscribe_key, unsubscribe_id,
}
use api_gateway_gtc.Propagator.Threads.{
  Thread, Threads, Turn, Turn-left, Turn-right, Turns, act, finished, run_alone, stop, turn,
}

module _ {Ctx Obj W Call : Type 0} (env : Env Ctx Obj Call) (ns_name failure : String) where
  abbrev on_ok : {A : Type 0} → Outcome A → Thread (Propagator W Call) → Thread (Propagator W Call)
  on_ok (ok a) t = t
  on_ok (throw e) t = finished

  -- `subscribe` by its steps: the connection, the test, the manager's call, the new entry.
  pub subscribe_steps : String → Call → W → Thread (Propagator W Call)
  subscribe_steps key call w =
      act (λ p. (ensure_connected env ns_name failure p).1)
        λ p. on_ok (ensure_connected env ns_name failure p).0 (
          act (λ q. q)
            λ q.
              if has_active_writers key q.registry
              then act (λ r. (add key w r).1) (λ r. finished)
              else act (λ r. (corba_call env call r).1)
                  λ r. on_ok (corba_call env call r).0 (act (λ t. (add key w t).1) (λ t. finished)))

  -- `unsubscribe` by its steps: the entry goes, and then the manager is called if it was the last.
  pub unsubscribe_steps : Call → ℕ → Thread (Propagator W Call)
  unsubscribe_steps call id =
      act (λ p. record p { registry = (remove_entry id p.registry).0 })
        λ p.
          if (remove_entry id p.registry).1
          then act
              (λ q.
                (swallow_corba ((ensure_connected env ns_name failure >> corba_call env call) q)).1)
              (λ q. finished)
          else finished

  -- The steps are those of the methods: a thread that runs alone ends in the method's state.
  pub subscribe_steps_alone :
      (key : String) (call : Call) (w : W) (p : Propagator W Call)
      → run_alone (subscribe_steps key call w) p
        ≡ ((ensure_connected env ns_name failure >> subscribe_key key (corba_call env call) w) p).1
  unfolding subscribe_steps run_alone subscribe_key
  subscribe_steps_alone key call w p = connected (ensure_connected env ns_name failure p)
    where
      called :
          (q : Propagator W Call) (o : Outcome (Unit {0}) × Propagator W Call)
          → run_alone (on_ok o.0 (act (λ t. (add key w t).1) (λ t. finished))) o.1
            ≡ (bind o (λ _. add key w)).1
      called q (ok u, t) = refl
      called q (throw e, t) = refl

      tested :
          (q : Propagator W Call) (b : Bool)
          → run_alone
              (if b
                then act (λ r. (add key w r).1) (λ r. finished)
                else act
                    (λ r. (corba_call env call r).1)
                    (λ r.
                      on_ok (corba_call env call r).0 (act (λ t. (add key w t).1) (λ t. finished))))
              q
            ≡ (if b then add key w q else bind (corba_call env call q) (λ _. add key w)).1
      tested q true = refl
      tested q false = called q (corba_call env call q)

      connected :
          (o : Outcome (Unit {0}) × Propagator W Call)
          → run_alone
              (on_ok o.0 (
                act
                  (λ q. q)
                  λ q.
                    if has_active_writers key q.registry
                    then act (λ r. (add key w r).1) (λ r. finished)
                    else act
                        (λ r. (corba_call env call r).1)
                        λ r.
                          on_ok
                            (corba_call env call r).0
                            (act (λ t. (add key w t).1) (λ t. finished))))
              o.1
            ≡ (bind o (λ _. subscribe_key key (corba_call env call) w)).1
      connected (throw e, q) = refl
      connected (ok u, q) = tested q (has_active_writers key q.registry)

  pub unsubscribe_steps_alone :
      (call : Call) (id : ℕ) (p : Propagator W Call)
      → run_alone (unsubscribe_steps call id) p
        ≡ (unsubscribe_id env ns_name failure (corba_call env call) id p).1
  unfolding unsubscribe_steps run_alone unsubscribe_id
  unsubscribe_steps_alone call id p = cancelled (remove_entry id p.registry).1
    where
      p' : Propagator W Call
      p' = record p { registry = (remove_entry id p.registry).0 }

      cancel : Propagator W Call → Outcome (Unit {0}) × Propagator W Call
      cancel q = swallow_corba ((ensure_connected env ns_name failure >> corba_call env call) q)

      cancelled :
          (b : Bool)
          → run_alone (if b then act (λ q. (cancel q).1) (λ q. finished) else finished) p'
            ≡ (if b then cancel p' else (ok tt, p')).1
      cancelled true = refl
      cancelled false = refl

  connected_already :
      (p : Propagator W Call)
      → p.connected ≡ true
      → ensure_connected env ns_name failure p ≡ (ok tt, p)
  unfolding ensure_connected
  connected_already p c = ground arith

  call_taken :
      (call : Call) (p : Propagator W Call)
      → env.remote call ≡ ok tt
      → corba_call env call p ≡ (ok tt, record p { accepted = call ∷ p.accepted })
  unfolding corba_call answered
  call_taken call p r = ground arith

  -- The race: the last writer of a key leaves while a new one comes. The leaving thread removes the
  -- entry, the new one subscribes, and the leaving thread's call of the manager comes last.
  pub subscribe_unsubscribe_race :
      (key : String) (start end : Call) (id : ℕ) (w : W) (p : Propagator W Call)
      → p.connected ≡ true
      → env.remote start ≡ ok tt
      → env.remote end ≡ ok tt
      → (remove_entry id p.registry).1 ≡ true
      → has_active_writers key (remove_entry id p.registry).0 ≡ false
      → (q : Propagator W Call) × Turns
          (record {
            left = unsubscribe_steps end id;
            right = subscribe_steps key start w;
            state = p;
          })
          (record { left = finished; right = finished; state = q })
        × (q.registry ≡ (add_entry key w (remove_entry id p.registry).0).0)
        × (q.accepted ≡ end ∷ start ∷ p.accepted)
  unfolding subscribe_steps unsubscribe_steps add
  subscribe_unsubscribe_race key start end id w p c rs re last none_left = (
    q,
    turn removed (turn joined (turn tested (turn started (turn added (turn cancelled stop))))),
    refl,
    refl,
  )
    where
      p1 : Propagator W Call
      p1 = record p { registry = (remove_entry id p.registry).0 }

      p2 : Propagator W Call
      p2 = record p1 { accepted = start ∷ p.accepted }

      p3 : Propagator W Call
      p3 = record p2 { registry = (add_entry key w p2.registry).0 }

      q : Propagator W Call
      q = record p3 { accepted = end ∷ p2.accepted }

      -- The threads' rests.
      cancel : Thread (Propagator W Call)
      cancel =
          act
            (λ s.
              (swallow_corba ((ensure_connected env ns_name failure >> corba_call env end) s)).1)
            (λ s. finished)

      enter : Thread (Propagator W Call)
      enter = act (λ s. (add key w s).1) (λ s. finished)

      call_then_enter : Thread (Propagator W Call)
      call_then_enter =
          act (λ s. (corba_call env start s).1) (λ s. on_ok (corba_call env start s).0 enter)

      test : Thread (Propagator W Call)
      test =
          act (λ s. s) (λ s. if has_active_writers key s.registry then enter else call_then_enter)

      at :
          Thread (Propagator W Call)
          → Thread (Propagator W Call)
          → Propagator W Call
          → Threads (Propagator W Call)
      at l r s = record { left = l; right = r; state = s }

      removed :
          Turn
            (at (unsubscribe_steps end id) (subscribe_steps key start w) p)
            (at cancel (subscribe_steps key start w) p1)
      removed = Turn-left _ _ _ cancel p1 refl (rw last) refl

      joined : Turn (at cancel (subscribe_steps key start w) p1) (at cancel test p1)
      joined =
          Turn-right _ _ _ test p1 refl (rw (connected_already p1 c)) (rw (connected_already p1 c))

      tested : Turn (at cancel test p1) (at cancel call_then_enter p1)
      tested = Turn-right _ _ _ call_then_enter p1 refl (rw none_left) refl

      started : Turn (at cancel call_then_enter p1) (at cancel enter p2)
      started =
          Turn-right _ _ _ enter p2 refl (rw (call_taken start p1 rs)) (rw (call_taken start p1 rs))

      added : Turn (at cancel enter p2) (at cancel finished p3)
      added = Turn-right _ _ _ finished p3 refl refl refl

      cancelled : Turn (at cancel finished p3) (at finished finished q)
      cancelled =
          Turn-left _ _ _ finished q refl refl (rw (connected_already p3 c, call_taken end p3 re))
