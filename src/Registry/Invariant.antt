-- ===== src/Registry/Invariant.antt =====
-- The registry's invariant: the ids ascend in the map and stay below the next one.
use api_gateway_gtc.Base.{
  ℕ, ◌+◌, ◌^◌, ◌<◌, String, ◌≡◌, Bool, true, false, none, some, List, [], ◌∷◌, inl, inr, arith,
  Option-cases, if◌then◌else◌,
}
use api_gateway_gtc.Registry.{
  Registry, Entry, Transport, empty, add_entry, remove_entry, mark_inactive, deliver, dispatch,
  targets, find, Ascending, AllBelow, assign-Ascending, erase-Ascending, assign-AllBelow,
  erase-AllBelow, AllBelow-mono, find_above,
}

pub record IsValid {W : Type 0} (r : Registry W) : Type 0 where
  pub ascending : Ascending 0 r.entries
  pub below : AllBelow r.next_id r.entries
  pub ranged : r.next_id < 2 ^ 64

module _ {W : Type 0} where
  pub empty-IsValid : IsValid (empty {W = W})
  unfolding empty
  empty-IsValid = record { ascending = tt; below = tt; ranged = omega arith }

  find-lt :
      (k n : ℕ) (e : Entry W) (m : List (ℕ × Entry W)) → AllBelow n m → find k m ≡ some e → k < n
  unfolding find
  find-lt k n e [] b h = cc
  find-lt k n e ((j, f) ∷ m) b h = ground (arith, find-lt k n e m b.1)

  -- A registry with no entry of a given id at or past the next one.
  pub find_next : (r : Registry W) → IsValid r → find r.next_id r.entries ≡ none
  find_next r v = find_above r.next_id r.next_id r.entries (omega arith) v.below

  pub add_entry-IsValid :
      (key : String) (w : W) (r : Registry W)
      → IsValid r
      → r.next_id + 1 < 2 ^ 64
      → IsValid (add_entry key w r).0
  unfolding add_entry
  add_entry-IsValid key w r v h = record {
    ascending = assign-Ascending r.next_id 0 _ r.entries (omega arith) v.ascending;
    below = ground (
      arith,
      assign-AllBelow r.next_id (r.next_id + 1) (record { key = key; writer = w; active = true })
          r.entries,
      AllBelow-mono r.next_id (r.next_id + 1) r.entries,
    );
    ranged = omega arith;
  }

  pub remove_entry-IsValid : (id : ℕ) (r : Registry W) → IsValid r → IsValid (remove_entry id r).0
  unfolding remove_entry
  remove_entry-IsValid id r v =
      ground (arith, erase-Ascending id 0 r.entries, erase-AllBelow id r.next_id r.entries)

  pub mark_inactive-IsValid : (id : ℕ) (r : Registry W) → IsValid r → IsValid (mark_inactive id r)
  unfolding mark_inactive
  mark_inactive-IsValid id r v = elim (Option-cases (find id r.entries)) [
    | inl e ↦ rw (e, mark_inactive) v
    | inr (e, p) ↦
        rw (p, mark_inactive)
          (record {
            ascending =
                assign-Ascending id 0 (record e { active = false }) r.entries (omega arith)
                  v.ascending;
            below =
                assign-AllBelow id r.next_id (record e { active = false }) r.entries
                  (find-lt id r.next_id e r.entries v.below p) v.below;
            ranged = v.ranged;
          })
  ]

  -- The state after one write of `dispatch`.
  pub after_write-IsValid :
      (sent : Bool) (id : ℕ) (r : Registry W)
      → IsValid r
      → IsValid (if sent then r else mark_inactive id r)
  after_write-IsValid true id r v = v
  after_write-IsValid false id r v = mark_inactive-IsValid id r v

module _ {W T S : Type 0} (t : Transport W T S) where
  deliver-IsValid :
      (ts : List (ℕ × W)) (x : T) (r : Registry W) (s : S) (b : Bool)
      → IsValid r
      → IsValid (deliver t ts x r s b).0.0
  unfolding deliver
  deliver-IsValid [] x r s b v = v
  deliver-IsValid ((id, w) ∷ ts) x r s b v =
      deliver-IsValid ts x (if (t.write w x s).0 then r else mark_inactive id r) (t.write w x s).1
        (if (t.write w x s).0 then b else false) (after_write-IsValid (t.write w x s).0 id r v)

  -- `dispatch` keeps a well-formed registry well formed, whatever the streams do.
  pub dispatch-IsValid :
      (key : String) (x : T) (r : Registry W) (s : S)
      → IsValid r
      → IsValid (dispatch t key x (r, s)).0.0
  unfolding dispatch
  dispatch-IsValid key x r s v = deliver-IsValid (targets key r.entries) x r s true v
