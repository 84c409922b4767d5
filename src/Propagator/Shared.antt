-- ===== src/Propagator/Shared.antt =====
-- What the parts of `subscribe` and `unsubscribe` change, for every propagator.
use api_gateway_gtc.Base.{
  ℕ, ◌+◌, ◌<◌, ◌^◌, String, ◌≡◌, refl, ◌∙◌, Bool, true, false, none, some, List, [], ◌∷◌, inl, inr,
  arith, if◌then◌else◌, ◌==◌, eq_iff, Bool-cases, Option-cases, ◌↔◌,
}
use api_gateway_gtc.Base.Outcome.{
  Outcome, ok, throw, corba, runtime_error, invalid_argument, Exec, bind, swallow_corba, ◌>>◌,
}
use api_gateway_gtc.Registry.{Entry, remove_entry, has_active_writers}
use api_gateway_gtc.Registry.Invariant.{IsValid, add_entry-IsValid, remove_entry-IsValid}
use api_gateway_gtc.Registry.View.{
  entry, has_active_writers-add_entry, has_active_writers-remove_entry, remove_entry_clears,
}
use api_gateway_gtc.Propagator.{
  Propagator, Env, ensure_connected, connect_to, narrow_corba_object, add, answered, corba_call,
  subscribe_key, unsubscribe_id,
}

module _ {Ctx Obj W Call : Type 0} (env : Env Ctx Obj Call) (ns_name failure : String) where
  -- `ensureConnected` changes nothing but whether the manager is reached.
  pub ensure_connected_frame :
      (p : Propagator W Call)
      → let q = (ensure_connected env ns_name failure p).1 in
        (q.registry ≡ p.registry) × (q.accepted ≡ p.accepted)
  unfolding ensure_connected connect_to narrow_corba_object
  ensure_connected_frame p = ground arith

  -- When it returns the manager is reached; when it was reached before it does nothing.
  pub ensure_connected_reached :
      (p : Propagator W Call)
      → ((ensure_connected env ns_name failure p).0 ≡ ok tt)
        ↔ ((ensure_connected env ns_name failure p).1.connected ≡ true)
  unfolding ensure_connected connect_to narrow_corba_object
  ensure_connected_reached p = (λ h. ground arith, λ h. ground arith)

-- Which topic a call of the manager is about, and whether it starts or ends a subscription.
pub record Protocol (Call : Type 0) : Type 0 where
  pub key_of : Call → String
  pub starts : Call → Bool

-- Whether the last call about the topic started a subscription.
unfoldable pub latest : {Call : Type 0} → Protocol Call → String → List Call → Bool
latest pr key [] = false
latest pr key (c ∷ cs) = if pr.key_of c == key then pr.starts c else latest pr key cs

-- The registry is well formed, and for each key with an active writer the manager's last call
-- about that key started the subscription.
pub record Inv {W Call : Type 0} (pr : Protocol Call) (p : Propagator W Call) : Type 0 where
  pub valid : IsValid p.registry
  pub synced :
      (key : String) → has_active_writers key p.registry ≡ true → latest pr key p.accepted ≡ true

module _ {W Call : Type 0} (pr : Protocol Call) where
  -- The state after `addEntry`, if the manager's last call about the key started a subscription.
  add-Inv :
      (key : String) (w : W) (p : Propagator W Call)
      → Inv pr p
      → p.registry.next_id + 1 < 2 ^ 64
      → latest pr key p.accepted ≡ true
      → Inv pr (add key w p).1
  unfolding add
  add-Inv key w p v room on = record {
    valid = add_entry-IsValid key w p.registry v.valid room;
    synced = λ k h.
        ground (
          arith,
          has_active_writers-add_entry key k w p.registry v.valid,
          v.synced k,
          eq_iff key k,
        );
  }

  module _ {Ctx Obj : Type 0} (env : Env Ctx Obj Call) where
    pub subscribe_key-Inv :
        (key : String) (call : Call) (w : W) (p : Propagator W Call)
        → pr.key_of call ≡ key
        → pr.starts call ≡ true
        → Inv pr p
        → p.registry.next_id + 1 < 2 ^ 64
        → Inv pr (subscribe_key key (corba_call env call) w p).1
    unfolding subscribe_key corba_call answered latest
    subscribe_key-Inv key call w p k st v room =
        elim (Bool-cases (has_active_writers key p.registry)) [
          | inl reuse ↦ rw (subscribe_key, reuse) (add-Inv key w p v room (v.synced key reuse))
          | inr new ↦ rw (subscribe_key, new) (called (env.remote call))
        ]
      where
        called : (o : Outcome (Unit {0})) → Inv pr (bind (answered call o p) (λ _. add key w)).1
        called (throw e) = v
        called (ok u) =
            add-Inv key w (record p { accepted = call ∷ p.accepted })
              (record {
                valid = v.valid;
                synced = λ j h. ground (arith, v.synced j, eq_iff (pr.key_of call) j);
              })
              room (ground (arith, eq_iff (pr.key_of call) key))

swallow_corba_state : {S : Type 0} (r : Outcome (Unit {0}) × S) → (swallow_corba r).1 ≡ r.1
swallow_corba_state (ok u, s) = refl
swallow_corba_state (throw (corba n), s) = refl
swallow_corba_state (throw (runtime_error n), s) = refl
swallow_corba_state (throw (invalid_argument n), s) = refl

module _ {W Call : Type 0} (pr : Protocol Call) where
  pub Inv-transfer :
      (p q : Propagator W Call)
      → q.registry ≡ p.registry
      → q.accepted ≡ p.accepted
      → Inv pr p
      → Inv pr q
  Inv-transfer p q r a v = record {
    valid = rw r v.valid;
    synced = λ k h. rw a (v.synced k (rw r at h));
  }

module _ {Ctx Obj W Call : Type 0} (env : Env Ctx Obj Call) (ns_name failure : String) where
  -- What follows the connection in the `try` block of `unsubscribe`.
  cancel_state {ℓ} :
      (P : Propagator W Call → Type ℓ) (cancel : Exec (Propagator W Call) (Unit {0}))
      (p : Propagator W Call)
      → ((q : Propagator W Call) → q.registry ≡ p.registry → q.accepted ≡ p.accepted → P q)
      → ((q : Propagator W Call)
          → q.registry ≡ p.registry
          → q.accepted ≡ p.accepted
          → P (cancel q).1)
      → P (swallow_corba ((ensure_connected env ns_name failure >> cancel) p)).1
  cancel_state P cancel p failed done = rw swallow_corba_state (
      after (ensure_connected env ns_name failure p) (ensure_connected_frame env ns_name failure p))
    where
      after :
          (r : Outcome (Unit {0}) × Propagator W Call)
          → (r.1.registry ≡ p.registry) × (r.1.accepted ≡ p.accepted)
          → P (bind r (λ _. cancel)).1
      after (ok u, q) f = done q f.0 f.1
      after (throw e, q) f = failed q f.0 f.1

  -- An id that has no entry is left alone.
  pub unsubscribe_absent :
      (cancel : Exec (Propagator W Call) (Unit {0})) (id : ℕ) (p : Propagator W Call)
      → entry p.registry id ≡ none
      → unsubscribe_id env ns_name failure cancel id p ≡ (ok tt, p)
  unfolding unsubscribe_id remove_entry
  unsubscribe_absent cancel id p h = rw (unsubscribe_id, remove_entry, h)

  -- `unsubscribe` removes the entry on every path, also where it throws.
  pub registry-unsubscribe_with :
      (cancel : Exec (Propagator W Call) (Unit {0})) (id : ℕ) (p : Propagator W Call)
      → ((q : Propagator W Call) → (cancel q).1.registry ≡ q.registry)
      → (unsubscribe_id env ns_name failure cancel id p).1.registry ≡ (remove_entry id p.registry).0
  unfolding unsubscribe_id
  registry-unsubscribe_with cancel id p same = elim (Bool-cases (remove_entry id p.registry).1) [
    | inr more ↦ rw (unsubscribe_id, more)
    | inl last ↦
        rw (unsubscribe_id, last)
          (cancel_state (λ q. q.registry ≡ (remove_entry id p.registry).0) cancel
            (record p { registry = (remove_entry id p.registry).0 }) (λ q r a. r)
            (λ q r a. same q ∙ r))
  ]

  pub registry-corba_call :
      (call : Call) (q : Propagator W Call) → (corba_call env call q).1.registry ≡ q.registry
  unfolding corba_call answered
  registry-corba_call call q = ground arith

  pub registry-unsubscribe_id :
      (call : Call) (id : ℕ) (p : Propagator W Call)
      → (unsubscribe_id env ns_name failure (corba_call env call) id p).1.registry
        ≡ (remove_entry id p.registry).0
  registry-unsubscribe_id call id p =
      registry-unsubscribe_with (corba_call env call) id p (registry-corba_call call)

  pub unsubscribe_id-Inv :
      (pr : Protocol Call) (call : Call) (id : ℕ) (p : Propagator W Call)
      → pr.starts call ≡ false
      → ((e : Entry W) → entry p.registry id ≡ some e → e.key ≡ pr.key_of call)
      → Inv pr p
      → Inv pr (unsubscribe_id env ns_name failure (corba_call env call) id p).1
  unfolding unsubscribe_id corba_call answered latest
  unsubscribe_id-Inv pr call id p st mine v = elim (Bool-cases (remove_entry id p.registry).1) [
    | inr more ↦ rw (unsubscribe_id, more) removed
    | inl last ↦
        rw (unsubscribe_id, last)
          (cancel_state (Inv pr) (corba_call env call) p'
            (λ q r a. Inv-transfer pr p' q r a removed)
            (λ q r a. called last q r a (env.remote call)))
  ]
    where
      p' : Propagator W Call
      p' = record p { registry = (remove_entry id p.registry).0 }

      removed : Inv pr p'
      removed = record {
        valid = remove_entry-IsValid id p.registry v.valid;
        synced = λ k h. v.synced k (has_active_writers-remove_entry id k p.registry h);
      }

      cleared :
          (remove_entry id p.registry).1 ≡ true
          → has_active_writers (pr.key_of call) p'.registry ≡ false
      cleared last = elim (Option-cases (entry p.registry id)) [
        | inl e ↦ absurd (unfold remove_entry in ground arith)
        | inr (e, found) ↦ rw (← mine e found) (remove_entry_clears id p.registry e found last)
      ]

      called :
          (remove_entry id p.registry).1 ≡ true
          → (q : Propagator W Call) → q.registry ≡ p'.registry
          → q.accepted ≡ p'.accepted
          → (o : Outcome (Unit {0})) → Inv pr (answered call o q).1
      called last q r a (throw e) = Inv-transfer pr p' q r a removed
      called last q r a (ok u) =
          let v' = Inv-transfer pr p' q r a removed in
          record {
            valid = v'.valid;
            synced = λ k h. ground (arith, v'.synced k, eq_iff (pr.key_of call) k, cleared last);
          }
