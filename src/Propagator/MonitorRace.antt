-- ===== src/Propagator/MonitorRace.antt =====
-- The race of two requests for the data blocks of one magnitude.
use api_gateway_gtc.Base.{c_str, ℕ, String, ◌≡◌, ◌≢◌, sym, ap, ◌∙◌, true, false, eq_refl}
use api_gateway_gtc.Base.Outcome.{ok}
use api_gateway_gtc.Registry.{remove_entry, has_active_writers}
use api_gateway_gtc.Registry.Keys.{data_block_key}
use api_gateway_gtc.Registry.Invariant.{IsValid, remove_entry-IsValid}
use api_gateway_gtc.Registry.View.{
  Serves, remove_entry_last, remove_entry_clears, has_active_writers-add_entry,
}
use api_gateway_gtc.Propagator.{Propagator, Env}
use api_gateway_gtc.Propagator.Shared.{latest}
use api_gateway_gtc.Propagator.Monitor.{
  data_blocks, MonitorCall, subscribe_to_data_blocks, unsubscribe_to_data_blocks, subscribe,
  unsubscribe, gcs_monitor_name, narrow_failed, corba_subscribe, corba_unsubscribe, monitor_key,
}
use api_gateway_gtc.Propagator.Sync.{protocol}
use api_gateway_gtc.Propagator.Race.{
  subscribe_steps, unsubscribe_steps, subscribe_steps_alone, unsubscribe_steps_alone,
  subscribe_unsubscribe_race,
}
use api_gateway_gtc.Propagator.Threads.{Thread, finished, Turns, run_alone}

module _ {Ctx Obj W C : Type 0} (env : Env Ctx Obj (MonitorCall C)) (component magnitude : String)
    (consumer : C) where
  -- The two requests as threads.
  abbrev pub subscribing : W → Thread (Propagator W (MonitorCall C))
  subscribing w =
      subscribe_steps env gcs_monitor_name narrow_failed (data_block_key component magnitude)
        (subscribe_to_data_blocks (c_str component) (c_str magnitude) consumer) w

  abbrev pub unsubscribing : ℕ → Thread (Propagator W (MonitorCall C))
  unsubscribing id =
      unsubscribe_steps env gcs_monitor_name narrow_failed
        (unsubscribe_to_data_blocks (c_str component) (c_str magnitude) consumer) id

  -- Each thread, alone, does what the method does.
  pub threads_alone :
      (id : ℕ) (w : W) (p : Propagator W (MonitorCall C))
      → (run_alone (subscribing w) p
          ≡ (subscribe env component magnitude data_blocks consumer w p).1)
        × (run_alone (unsubscribing id) p
            ≡ (unsubscribe env id component magnitude data_blocks consumer p).1)
  unfolding subscribe unsubscribe monitor_key corba_subscribe corba_unsubscribe
  threads_alone id w p = (
    subscribe_steps_alone env gcs_monitor_name narrow_failed (data_block_key component magnitude)
        (subscribe_to_data_blocks (c_str component) (c_str magnitude) consumer) w p,
    unsubscribe_steps_alone env gcs_monitor_name narrow_failed
        (unsubscribe_to_data_blocks (c_str component) (c_str magnitude) consumer) id p,
  )

  -- If the only client of a magnitude leaves while another one subscribes, the two requests can
  -- interleave so that the new client is registered and active and the manager was last told to
  -- stop its topic; the registry is well formed, and the manager is reached and takes both calls.
  pub new_client_unserved :
      (id : ℕ) (w : W) (p : Propagator W (MonitorCall C))
      → p.connected ≡ true
      → env.remote (subscribe_to_data_blocks (c_str component) (c_str magnitude) consumer) ≡ ok tt
      → env.remote (unsubscribe_to_data_blocks (c_str component) (c_str magnitude) consumer) ≡ ok tt
      → IsValid p.registry
      → Serves (data_block_key component magnitude) id p.registry.entries
      → ((j : ℕ) → j ≢ id → ¬ Serves (data_block_key component magnitude) j p.registry.entries)
      → (q : Propagator W (MonitorCall C)) × Turns
          (record { left = unsubscribing id; right = subscribing w; state = p })
          (record { left = finished; right = finished; state = q })
        × (has_active_writers (data_block_key component magnitude) q.registry ≡ true)
        × (latest protocol (data_block_key (c_str component) (c_str magnitude)) q.accepted ≡ false)
  unfolding latest
  new_client_unserved id w p c rs re v mine alone =
      let key = data_block_key component magnitude in
      let (e, found, act, is_key) = mine in
      let last : (remove_entry id p.registry).1 ≡ true =
        (remove_entry_last id p.registry v).1
          (e, found, λ j ne s. alone j ne (s.0, s.1, s.2, s.3 ∙ is_key)) in
      let cleared : has_active_writers key (remove_entry id p.registry).0 ≡ false =
        ap (λ k. has_active_writers k (remove_entry id p.registry).0) (sym is_key)
        ∙ remove_entry_clears id p.registry e found last in
      let (q, turns, reg, acc) =
        subscribe_unsubscribe_race env gcs_monitor_name narrow_failed key
          (subscribe_to_data_blocks (c_str component) (c_str magnitude) consumer)
          (unsubscribe_to_data_blocks (c_str component) (c_str magnitude) consumer) id w p c rs re
          last cleared in
      (
        q,
        turns,
        rw (
          reg,
          has_active_writers-add_entry key key w (remove_entry id p.registry).0
              (remove_entry-IsValid id p.registry v),
          eq_refl key,
        ),
        rw (acc, eq_refl (data_block_key (c_str component) (c_str magnitude))),
      )
