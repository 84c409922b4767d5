-- ===== src/Tests/Stream.antt =====
-- Streams whose clients cancel their calls, and two clients at once.
use api_gateway_gtc.Base.{ℕ, ◌+◌, String, ◌≡◌, refl, true, false, none, some, List, [], ◌∷◌, arith}
use api_gateway_gtc.Base.Outcome.{Outcome, Status}
use api_gateway_gtc.Propagator.{Propagator}
use api_gateway_gtc.Propagator.Monitor.{MonitorCall, data_blocks}
use api_gateway_gtc.Registry.View.{entry}
use api_gateway_gtc.Stream.{Round, subscribe_monitor}
use api_gateway_gtc.Stream.Handlers.{
  System, Step, idle, added, removed, Reach, start, next, subscribe, collect, write_done,
  write_failed, unsubscribe,
}
use api_gateway_gtc.Stream.Handlers.Owners.{IsOwned}
use api_gateway_gtc.Stream.Handlers.Service.{Moves}
use api_gateway_gtc.Stream.Handlers.Refines.{view, Step-Moves}
use api_gateway_gtc.Stream.Handlers.Interleaved.{Reach-IsOwned}
use api_gateway_gtc.Registry.{mark_inactive, assign, add_entry, targets}
use api_gateway_gtc.Stream.Served.{subscribe_monitor-releases}
use api_gateway_gtc.Tests.Data.{
  three_clients, three_clients-IsValid, willing, unconnected, consumer,
}

-- One round of waiting, with nothing from other threads, and then the client cancels.
abbrev two_rounds : {P : Type 0} → List (Round P)
two_rounds =
    record { is_cancelled = false; others = λ p. p }
    ∷ record { is_cancelled = true; others = λ p. p }
    ∷ []

subscribe_monitor-releases_example :
    (r : Outcome Status × Propagator ℕ (MonitorCall ℕ)) × (subscribe_monitor willing "MACS"
        "position" data_blocks consumer 20 two_rounds
        (unconnected three_clients)
      ≡ some r)
    × (entry r.1.registry 3 ≡ none)
subscribe_monitor-releases_example =
    subscribe_monitor-releases willing "MACS" "position" data_blocks consumer 20 two_rounds
      (unconnected three_clients) three_clients-IsValid (omega arith) ((λ p v. v), ((λ p v. v), tt))
      refl

-- Two clients of one magnitude: an event reaches the first, the second is gone, and its handler
-- leaves the registry.
abbrev shared_key : ℕ → String
shared_key i = "D:MACS:position"

abbrev client : ℕ → ℕ
client i = i + 20

abbrev both : System ℕ
both = added shared_key client 4 (added shared_key client 9 idle)

abbrev collected : System ℕ
collected = record both { pending = targets "D:MACS:position" both.registry.entries }

abbrev one_written : System ℕ
one_written = record both { pending = (1, 24) ∷ [] }

abbrev one_failed : System ℕ
one_failed = record both { registry = mark_inactive 1 both.registry; pending = [] }

abbrev one_left : System ℕ
one_left = removed shared_key client 4 1 one_failed

one_written-Reach : Reach shared_key client one_written
unfolding idle added targets add_entry assign
one_written-Reach =
    next {s = collected}
      (next {s = both}
        (next {s = added shared_key client 9 idle}
          (next start (subscribe 9 refl (omega arith) refl)) (subscribe 4 refl (omega arith) refl))
        (collect "D:MACS:position" refl refl))
      (write_done 0 29 ((1, 24) ∷ []) refl refl)

second_fails : Step shared_key client one_written one_failed
second_fails = write_failed 1 24 [] refl refl

one_left-Reach : Reach shared_key client one_left
unfolding added mark_inactive add_entry idle
one_left-Reach =
    next {s = one_failed} (next {s = one_written} one_written-Reach second_fails)
      (unsubscribe 4 1 refl refl)

Reach-IsOwned_example : IsOwned shared_key client one_left.registry one_left.phase
Reach-IsOwned_example = Reach-IsOwned shared_key client one_left-Reach

Step-Moves_example : Moves (view one_written) (view one_failed)
Step-Moves_example = Step-Moves shared_key client one_written-Reach second_fails
