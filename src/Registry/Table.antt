-- ===== src/Registry/Table.antt =====
-- An abstract view of `SubscriptionRegistry` for its clients, with no map and no lists of it: a table
-- from ids to entries, the next id, and what each method may do to them.
use api_gateway_gtc.Base.{
  ℕ, suc, String, ◌≡◌, ◌↔◌, ◌≢◌, Bool, true, Option, none, some, List, [], ◌∷◌, nat_eq,
  if◌then◌else◌,
}
use api_gateway_gtc.Registry.{
  Registry, Entry, Transport, find, Ascending, add_entry, remove_entry, is_active,
  has_active_writers, dispatch,
}
use api_gateway_gtc.Registry.View.{deactivate}
use api_gateway_gtc.Registry.Dispatch.{contains, is_empty, failed, all_written}

-- The methods of the class, with their arguments.
pub data Op (W T : Type 0) : Type 0 where
  add : String → W → Op W T
  remove : ℕ → Op W T
  send : String → T → Op W T
  ask_active : ℕ → Op W T
  ask_writers : String → Op W T

-- What a method returns.
pub data Answer : Type 0 where
  given : ℕ → Answer
  flag : Bool → Answer

module _ {W T S : Type 0} (t : Transport W T S) where
  -- A call of a method, on the registry and the connections.
  unfoldable pub perform : Op W T → Registry W × S → (Registry W × S) × Answer
  perform (add key w) (r, s) = let a = add_entry key w r in ((a.0, s), given a.1)
  perform (remove id) (r, s) = let a = remove_entry id r in ((a.0, s), flag a.1)
  perform (send key x) (r, s) = let a = dispatch t key x (r, s) in (a.0, flag a.1)
  perform (ask_active id) (r, s) = ((r, s), flag (is_active id r))
  perform (ask_writers key) (r, s) = ((r, s), flag (has_active_writers key r))

  -- Calls one after the other, with their answers.
  unfoldable pub perform_all : List (Op W T) → Registry W × S → (Registry W × S) × List Answer
  unfolding perform
  perform_all [] c = (c, [])
  perform_all (op ∷ ops) c =
      let a = perform op c in let rest = perform_all ops a.0 in (rest.0, a.1 ∷ rest.1)

-- The table: which entry an id has, and the id that `addEntry` gives next.
pub record Table (W : Type 0) : Type 0 where
  pub slot : ℕ → Option (Entry W)
  pub next : ℕ

module _ {W : Type 0} where
  -- The id has an active entry with the key.
  abbrev pub Holds : (ℕ → Option (Entry W)) → String → ℕ → Type 0
  Holds f key id = (e : Entry W) × (f id ≡ some e) × (e.active ≡ true) × (e.key ≡ key)

  abbrev pub update : (ℕ → Option (Entry W)) → ℕ → Option (Entry W) → ℕ → Option (Entry W)
  update f id o j = if nat_eq id j then o else f j

  abbrev pub table : Registry W → Table W
  table r = record { slot = λ id. find id r.entries; next = r.next_id }

module _ {W T S : Type 0} (t : Transport W T S) where
  -- `addEntry` gives the next id, which has no entry, an active one; no id is given twice.
  abbrev pub Adds : String → W → Table W × S → (Table W × S) × Answer → Type 0
  Adds key w (m, s) ((m', s'), a) =
      (a ≡ given m.next)
      × (m.slot m.next ≡ none)
      × (m'.slot ≡ update m.slot m.next (some (record { key = key; writer = w; active = true })))
      × (m'.next ≡ suc m.next)
      × (s' ≡ s)

  -- `removeEntry` empties the id's slot, and tells whether that was the last with its key.
  abbrev pub Removes : ℕ → Table W × S → (Table W × S) × Answer → Type 0
  Removes id (m, s) ((m', s'), a) =
      (m'.slot ≡ update m.slot id none)
      × (m'.next ≡ m.next)
      × (s' ≡ s)
      × ((a ≡ flag true)
          ↔ ((e : Entry W) × (m.slot id ≡ some e) × ((j : ℕ) → j ≢ id → ¬ Holds m.slot e.key j)))

  -- `dispatch` writes once to each holder of the key, in the order of the ids, deactivates those
  -- whose write fails, and tells whether none failed.
  abbrev pub Sends : String → T → Table W × S → (Table W × S) × Answer → Type 0
  Sends key x (m, s) ((m', s'), a) =
      (ts : List (ℕ × W)) × Ascending 0 ts
      × ((id : ℕ) (w : W) → (find id ts ≡ some w) ↔ ((h : Holds m.slot key id) × (h.0.writer ≡ w)))
      × (s' ≡ all_written t ts x s)
      × (m'.slot
          ≡ (λ id. if contains id (failed t ts x s) then deactivate (m.slot id) else m.slot id))
      × (m'.next ≡ m.next)
      × (a ≡ flag (is_empty (failed t ts x s)))

  -- The two tests change nothing.
  abbrev pub Tells : Type 0 → Table W × S → (Table W × S) × Answer → Type 0
  Tells P (m, s) ((m', s'), a) = (m' ≡ m) × (s' ≡ s) × ((a ≡ flag true) ↔ P)

  abbrev pub Allows : Op W T → Table W × S → (Table W × S) × Answer → Type 0
  Allows (add key w) before after = Adds key w before after
  Allows (remove id) before after = Removes id before after
  Allows (send key x) before after = Sends key x before after
  Allows (ask_active id) before after =
      Tells ((e : Entry W) × (before.0.slot id ≡ some e) × (e.active ≡ true)) before after
  Allows (ask_writers key) before after = Tells ((id : ℕ) × Holds before.0.slot key id) before after

  -- Tables and answers that the promises allow, one call after the other.
  pub data Runs : List (Op W T) → Table W × S → (Table W × S) × List Answer → Type 0 where
    done : (c : Table W × S) → Runs [] c (c, [])
    call :
        {op : Op W T} {ops : List (Op W T)} {c d e : Table W × S} {a : Answer} {rest : List Answer}
        → Allows op c (d, a)
        → Runs ops d (e, rest)
        → Runs (op ∷ ops) c (e, a ∷ rest)
