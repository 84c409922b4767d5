-- ===== src/Stream/Handlers.antt =====
-- src/server/stream_server.cpp with any number of clients at once: each handler runs in a thread of its
-- own, and the ORB's thread dispatches events in between. A step is what one thread does to the registry
-- while it holds the mutex, or one write to a client.
pub mod Owners
pub mod Interleaved
pub mod Service
pub mod Refines
use api_gateway_gtc.Base.{ℕ, ◌+◌, ◌^◌, ◌<◌, ◌≡◌, String, List, [], ◌∷◌, nat_eq, if◌then◌else◌}
use api_gateway_gtc.Registry.{Registry, empty, add_entry, remove_entry, targets, mark_inactive}

-- Where a handler is: before `subscribe` has returned, in the waiting loop with its id, or behind
-- `removeEntry` or an exception of `subscribe`, when its `ServerWriter` may go at any time.
pub data Phase : Type 0 where
  starting : Phase
  waiting : ℕ → Phase
  finished : Phase

-- The registry, the handlers, and the targets to which the ORB's thread has still to write.
pub record System (W : Type 0) : Type 0 where
  pub registry : Registry W
  pub phase : ℕ → Phase
  pub pending : List (ℕ × W)

abbrev pub move : (ℕ → Phase) → ℕ → Phase → ℕ → Phase
move phase i p j = if nat_eq i j then p else phase j

module _ {W : Type 0} where
  unfoldable pub idle : System W
  unfolding empty
  idle = record { registry = empty; phase = λ i. starting; pending = [] }

  -- Handler `i` has the key `key i` and the writer `writer i`.
  module _ (key : ℕ → String) (writer : ℕ → W) where
    -- `registry_.addEntry`, the last step of `subscribe`.
    unfoldable pub added : ℕ → System W → System W
    added i s =
        let a = add_entry (key i) (writer i) s.registry in
        record { registry = a.0; phase = move s.phase i (waiting a.1); pending = s.pending }

    -- `registry_.removeEntry`, the first step of `unsubscribe`. The loop before it may end at any
    -- time, since the client may cancel.
    unfoldable pub removed : ℕ → ℕ → System W → System W
    removed i id s = record {
      registry = (remove_entry id s.registry).0;
      phase = move s.phase i finished;
      pending = s.pending;
    }

    pub data Step (s t : System W) : Type 0 where
      subscribe :
          (i : ℕ)
          → s.phase i ≡ starting
          → s.registry.next_id + 1 < 2 ^ 64
          → t ≡ added i s
          → Step s t
      refuse :
          (i : ℕ)
          → s.phase i ≡ starting
          → t ≡ record s { phase = move s.phase i finished }
          → Step s t
      unsubscribe : (i id : ℕ) → s.phase i ≡ waiting id → t ≡ removed i id s → Step s t
      collect :
          (k : String)
          → s.pending ≡ []
          → t ≡ record s { pending = targets k s.registry.entries }
          → Step s t
      write_done :
          (id : ℕ) (w : W) (rest : List (ℕ × W))
          → s.pending ≡ (id, w) ∷ rest
          → t ≡ record s { pending = rest }
          → Step s t
      write_failed :
          (id : ℕ) (w : W) (rest : List (ℕ × W))
          → s.pending ≡ (id, w) ∷ rest
          → t ≡ record s { registry = mark_inactive id s.registry; pending = rest }
          → Step s t

    pub data Reach : System W → Type 0 where
      start : Reach idle
      next : {s t : System W} → Reach s → Step s t → Reach t
