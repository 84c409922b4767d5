-- ===== src/Stream/Handlers/Interleaved.antt =====
-- The registry and the handlers of src/server/stream_server.cpp after any interleaving.
use api_gateway_gtc.Base.{ℕ, ◌+◌, ◌^◌, ◌<◌, ◌≡◌, sym, subst, String}
use api_gateway_gtc.Registry.{empty, find, add_entry, remove_entry, mark_inactive}
use api_gateway_gtc.Registry.Invariant.{
  empty-IsValid, add_entry-IsValid, remove_entry-IsValid, mark_inactive-IsValid,
}
use api_gateway_gtc.Registry.View.{entry-add_entry, entry-remove_entry, entry-mark_inactive}
use api_gateway_gtc.Stream.Handlers.{
  starting, waiting, System, idle, added, removed, Step, subscribe, refuse, unsubscribe, collect,
  write_done, write_failed, Reach, start, next,
}
use api_gateway_gtc.Stream.Handlers.Owners.{
  IsOwned, added-IsOwned, removed-IsOwned, marked-IsOwned, refused-IsOwned,
}

module _ {W : Type 0} (key : ℕ → String) (writer : ℕ → W) where
  abbrev Owned : System W → Type 0
  Owned s = IsOwned key writer s.registry s.phase

  subscribed-IsOwned :
      (s : System W) (i : ℕ)
      → Owned s
      → s.phase i ≡ starting
      → s.registry.next_id + 1 < 2 ^ 64
      → Owned (added key writer i s)
  unfolding added
  subscribed-IsOwned s i v before room =
      let a = add_entry (key i) (writer i) s.registry in
      added-IsOwned key writer s.registry a.0 s.phase v
        (add_entry-IsValid (key i) (writer i) s.registry v.valid room) i a.1
        (λ id. (entry-add_entry (key i) (writer i) s.registry id v.valid).1)
        (entry-add_entry (key i) (writer i) s.registry 0 v.valid).0 before

  unsubscribed-IsOwned :
      (s : System W) (i id : ℕ)
      → Owned s
      → s.phase i ≡ waiting id
      → Owned (removed key writer i id s)
  unfolding removed
  unsubscribed-IsOwned s i id v before =
      removed-IsOwned key writer s.registry (remove_entry id s.registry).0 s.phase v
        (remove_entry-IsValid id s.registry v.valid) i id
        (λ j. entry-remove_entry id j s.registry v.valid) before

  Step-IsOwned : (s t : System W) → Owned s → Step key writer s t → Owned t
  Step-IsOwned s t v (subscribe i before room e) =
      subst Owned (sym e) (subscribed-IsOwned s i v before room)
  Step-IsOwned s t v (refuse i before e) =
      subst Owned (sym e) (refused-IsOwned key writer s.registry s.phase i v before)
  Step-IsOwned s t v (unsubscribe i id before e) =
      subst Owned (sym e) (unsubscribed-IsOwned s i id v before)
  Step-IsOwned s t v (collect k none_left e) = subst Owned (sym e) v
  Step-IsOwned s t v (write_done id w rest p e) = subst Owned (sym e) v
  Step-IsOwned s t v (write_failed id w rest p e) = subst Owned (sym e) (
      marked-IsOwned key writer s.registry (mark_inactive id s.registry) s.phase v
        (mark_inactive-IsValid id s.registry v.valid) id (λ j. entry-mark_inactive id j s.registry))

  idle-IsOwned : Owned idle
  unfolding idle empty find
  idle-IsOwned = record {
    valid = empty-IsValid;
    held = λ i id h. cc;
    alone = λ i j id p q. cc;
    owner = λ id e h. absurd (cc);
  }

  -- However any number of handlers and dispatches interleave on a registry, with an id left at
  -- each subscription, the registry stays well formed, each waiting handler has an entry with its
  -- key and its writer, no two of them share an id, and every entry belongs to a waiting handler.
  pub Reach-IsOwned : {s : System W} → Reach key writer s → IsOwned key writer s.registry s.phase
  Reach-IsOwned start = idle-IsOwned
  Reach-IsOwned (next {s} {t} r step) = Step-IsOwned s t (Reach-IsOwned r) step
