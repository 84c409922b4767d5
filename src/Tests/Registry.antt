-- ===== src/Tests/Registry.antt =====
-- The registry's theorems at a registry with three clients.
use api_gateway_gtc.Base.{ℕ, ◌≡◌, refl, false, none, some, List, [], ◌∷◌, arith}
use api_gateway_gtc.Registry.{Registry, Entry, targets, find, erase}
use api_gateway_gtc.Registry.Invariant.{IsValid}
use api_gateway_gtc.Registry.View.{entry}
use api_gateway_gtc.Registry.Dispatch.{failed, all_written}
use api_gateway_gtc.Registry.Table.{Op, add, send, remove, ask_writers, perform_all, table, Runs}
use api_gateway_gtc.Registry.Refines.{perform_all-Runs}
use api_gateway_gtc.Registry.Unordered.{Change, change_all, change_all-Perm}
use mathlib.Core.List.Perm
use native.Mathlib.Nat.{ℕ_set}
use api_gateway_gtc.Registry.Gaps.{dispatch_among, removed_still_written}
use api_gateway_gtc.Tests.Data.{client, three_clients, three_clients-IsValid, one_broken}

erase_absent : (m : List (ℕ × Entry ℕ)) → find 0 m ≡ none → find 0 (erase 0 m) ≡ none
unfolding find erase
erase_absent [] h = refl
erase_absent ((j, e) ∷ m) h = ground (arith, erase_absent m)

-- A new client, a message to the clients of MACS, and the first client leaves.
abbrev calls : List (Op ℕ ℕ)
calls = add "A:TCS" 13 ∷ send "A:MACS" 5 ∷ remove 0 ∷ ask_writers "A:MACS" ∷ []

perform_all-Runs_example :
    let after = perform_all one_broken calls (three_clients, []) in
    Runs one_broken calls (table three_clients, []) ((table after.0.0, after.0.1), after.1)
    × IsValid after.0.0
perform_all-Runs_example =
    perform_all-Runs one_broken calls three_clients [] three_clients-IsValid (omega arith)

-- Client 0 leaves before the first write.
abbrev leaves : ℕ → Registry ℕ → Registry ℕ
leaves n r = record r { entries = erase 0 r.entries }

leaves-gone : (n : ℕ) (q : Registry ℕ) → entry q 0 ≡ none → entry (leaves n q) 0 ≡ none
leaves-gone n q h = erase_absent q.entries h

removed_still_written_example :
    let after = dispatch_among one_broken leaves "A:MACS" 5 (three_clients, []) in
    (find 0 (targets "A:MACS" three_clients.entries) ≡ some 10)
    × (after.0.1 ≡ (10, 5) ∷ [])
    × (after.1 ≡ false)
    × (entry after.0.0 0 ≡ none)
unfolding find targets failed all_written erase
removed_still_written_example =
    removed_still_written one_broken leaves "A:MACS" 5 three_clients [] 0
      (client "A:MACS" 10, refl, refl, refl) three_clients-IsValid refl leaves-gone

-- The write to the third client fails and its handler leaves, in either order, and the first client
-- leaves.
change_all-Perm_example :
    change_all (Change.fails 2 ∷ Change.leaves 2 ∷ Change.leaves 0 ∷ []) three_clients
    ≡ change_all (Change.leaves 2 ∷ Change.fails 2 ∷ Change.leaves 0 ∷ []) three_clients
change_all-Perm_example =
    change_all-Perm (Change.fails 2 ∷ Change.leaves 2 ∷ Change.leaves 0 ∷ [])
      (Change.leaves 2 ∷ Change.fails 2 ∷ Change.leaves 0 ∷ []) three_clients ℕ_set
      three_clients-IsValid (Perm.swap (Change.leaves 2) (Change.fails 2) (Change.leaves 0 ∷ []))
