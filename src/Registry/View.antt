-- ===== src/Registry/View.antt =====
-- The registry as an abstract table: which entry, if any, an id has.
use api_gateway_gtc.Base.{
  ℕ, ◌≤◌, ◌≢◌, suc, String, ◌≡◌, ◌↔◌, true, false, Option, none, some, List, [], ◌∷◌, inl, inr,
  arith, Option-cases, Bool-cases, ◌==◌, eq_iff, nat_eq, if◌then◌else◌, ◌&&◌,
}
use api_gateway_gtc.Registry.{
  assign, Registry, Entry, add_entry, remove_entry, has_active_writers, any_active, mark_inactive,
  find, Ascending, AllBelow, find-assign, find-erase, assign, erase, erase-Ascending, erase,
}
use api_gateway_gtc.Registry.Invariant.{IsValid, find_next}

module _ {W : Type 0} where
  -- The entry of an id.
  abbrev pub entry : Registry W → ℕ → Option (Entry W)
  entry r id = find id r.entries

  -- An active entry with the key.
  abbrev pub Serves : String → ℕ → List (ℕ × Entry W) → Type 0
  Serves key id m = (e : Entry W) × (find id m ≡ some e) × (e.active ≡ true) × (e.key ≡ key)

  pub any_active_found :
      (key : String) (n : ℕ) (m : List (ℕ × Entry W))
      → Ascending n m
      → any_active key m ≡ true
      → (id : ℕ) × (n ≤ id) × Serves key id m
  unfolding any_active find
  any_active_found key n [] a h = cc
  any_active_found key n ((j, e) ∷ m) a h = elim (Bool-cases (e.active && e.key == key)) [
    | inl hit ↦ (
      j,
      a.0,
      (e, ground arith, ground (arith, eq_iff e.key key), ground (arith, eq_iff e.key key)),
    )
    | inr miss ↦
        let (id, le, s) = any_active_found key (suc j) m a.1 (ground arith) in
        (id, omega arith, (s.0, ground arith, s.2, s.3))
  ]

  pub any_active_of_entry :
      (key : String) (id : ℕ) (m : List (ℕ × Entry W)) (e : Entry W)
      → find id m ≡ some e
      → e.active ≡ true
      → e.key ≡ key
      → any_active key m ≡ true
  unfolding any_active find
  any_active_of_entry key id [] e h a k = cc
  any_active_of_entry key id ((j, f) ∷ m) e h a k =
      ground (arith, any_active_of_entry key id m e, eq_iff f.key key)

  -- `hasActiveWriters` says whether some id has an active entry with the key.
  pub has_active_writers_iff :
      (key : String) (r : Registry W)
      → IsValid r
      → (has_active_writers key r ≡ true) ↔ ((id : ℕ) × Serves key id r.entries)
  unfolding has_active_writers
  has_active_writers_iff key r v = (found, back)
    where
      found : any_active key r.entries ≡ true → (id : ℕ) × Serves key id r.entries
      found h = let (id, _, s) = any_active_found key 0 r.entries v.ascending h in (id, s)

      back : (id : ℕ) × Serves key id r.entries → any_active key r.entries ≡ true
      back (id, s) = any_active_of_entry key id r.entries s.0 s.1 s.2 s.3

  any_active-assign :
      (key k : String) (w : W) (n : ℕ) (m : List (ℕ × Entry W))
      → AllBelow n m
      → any_active k (assign n (record { key = key; writer = w; active = true }) m)
        ≡ (if key == k then true else any_active k m)
  unfolding any_active assign
  any_active-assign key k w n [] b = ground arith
  any_active-assign key k w n ((j, e) ∷ m) b = ground (arith, any_active-assign key k w n m b.1)

  -- After `addEntry` the new key has an active writer; for the other keys nothing changes.
  pub has_active_writers-add_entry :
      (key k : String) (w : W) (r : Registry W)
      → IsValid r
      → has_active_writers k (add_entry key w r).0
        ≡ (if key == k then true else has_active_writers k r)
  unfolding has_active_writers add_entry
  has_active_writers-add_entry key k w r v = any_active-assign key k w r.next_id r.entries v.below

  any_active-erase :
      (k : String) (id : ℕ) (m : List (ℕ × Entry W))
      → any_active k (erase id m) ≡ true
      → any_active k m ≡ true
  unfolding any_active erase
  any_active-erase k id [] h = cc
  any_active-erase k id ((j, e) ∷ m) h = ground (arith, any_active-erase k id m)

  -- `removeEntry` makes no key active, and if it returns true, none has the key of the id's entry.
  pub has_active_writers-remove_entry :
      (id : ℕ) (k : String) (r : Registry W)
      → has_active_writers k (remove_entry id r).0 ≡ true
      → has_active_writers k r ≡ true
  unfolding has_active_writers remove_entry
  has_active_writers-remove_entry id k r h = ground (arith, any_active-erase k id r.entries)

  pub remove_entry_clears :
      (id : ℕ) (r : Registry W) (e : Entry W)
      → entry r id ≡ some e
      → (remove_entry id r).1 ≡ true
      → has_active_writers e.key (remove_entry id r).0 ≡ false
  unfolding has_active_writers remove_entry
  remove_entry_clears id r e p h = ground arith

  -- In a well-formed registry `addEntry` takes an id that has no entry, gives it an active entry
  -- with the key and the writer, and leaves every other id as it was.
  pub entry-add_entry :
      (key : String) (w : W) (r : Registry W) (id : ℕ)
      → IsValid r
      → (entry r (add_entry key w r).1 ≡ none)
        × (entry (add_entry key w r).0 id ≡ (
            if nat_eq (add_entry key w r).1 id
            then some (record { key = key; writer = w; active = true })
            else entry r id))
  unfolding add_entry
  entry-add_entry key w r id v = (find_next r v, find-assign r.next_id id _ r.entries)

  -- `removeEntry` takes its id away and leaves every other id as it was.
  pub entry-remove_entry :
      (id j : ℕ) (r : Registry W)
      → IsValid r
      → entry (remove_entry id r).0 j ≡ (if nat_eq id j then none else entry r j)
  unfolding remove_entry
  entry-remove_entry id j r v = ground (arith, find-erase id j 0 r.entries v.ascending)

  -- In a well-formed registry `removeEntry` returns true exactly when the id had an entry and no
  -- other id has an active entry with its key.
  pub remove_entry_last :
      (id : ℕ) (r : Registry W)
      → IsValid r
      → ((remove_entry id r).1 ≡ true)
        ↔ ((e : Entry W) × (entry r id ≡ some e) × ((j : ℕ) → j ≢ id → ¬ Serves e.key j r.entries))
  unfolding remove_entry
  remove_entry_last id r v = (fwd, bwd)
    where
      fwd :
          (remove_entry id r).1 ≡ true
          → (e : Entry W) × (entry r id ≡ some e) × ((j : ℕ) → j ≢ id → ¬ Serves e.key j r.entries)
      fwd h = elim (Option-cases (find id r.entries)) [
        | inl e ↦ absurd (ground arith)
        | inr (e, p) ↦ (
          e,
          p,
          λ j ne s. ground (
            arith,
            any_active_of_entry e.key j (erase id r.entries) s.0,
            find-erase id j 0 r.entries v.ascending,
            s.1,
            s.2,
            s.3,
          ),
        )
      ]

      erased : Ascending 0 (erase id r.entries)
      erased = erase-Ascending id 0 r.entries v.ascending

      bwd :
          (e : Entry W) × (entry r id ≡ some e) × ((j : ℕ) → j ≢ id → ¬ Serves e.key j r.entries)
          → (remove_entry id r).1 ≡ true
      bwd (e, p, none_left) = elim (Bool-cases (any_active e.key (erase id r.entries))) [
        | inl more ↦
            let (j, _, s) = any_active_found e.key 0 (erase id r.entries) erased more in
            absurd (
              ground (
                arith,
                none_left j,
                find-erase id j 0 r.entries v.ascending,
                s.1,
                s.2,
                s.3,
                λ (ne : j ≢ id) (kept : find j r.entries ≡ some s.0).
                    none_left j ne (s.0, kept, s.2, s.3),
              ))
        | inr last ↦ ground arith
      ]

  abbrev pub deactivate : Option (Entry W) → Option (Entry W)
  deactivate none = none
  deactivate (some e) = some (record e { active = false })

  -- Clearing a flag: `isActive` turns false at the id, and nothing else changes.
  pub entry-mark_inactive :
      (id j : ℕ) (r : Registry W)
      → entry (mark_inactive id r) j ≡ (if nat_eq id j then deactivate (entry r j) else entry r j)
  unfolding mark_inactive
  entry-mark_inactive id j r = elim (Option-cases (find id r.entries)) [
    | inl e ↦ ground arith
    | inr (e, p) ↦ ground (arith, find-assign id j (record e { active = false }) r.entries)
  ]
