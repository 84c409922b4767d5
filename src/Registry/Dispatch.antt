-- ===== src/Registry/Dispatch.antt =====
-- `SubscriptionRegistry::dispatch`: who is written to, and what a failed write changes.
use api_gateway_gtc.Base.{
  ℕ, suc, ◌<◌, String, ◌≡◌, refl, ◌≢◌, ◌↔◌, ap, ◌∙◌, Bool, true, false, ◌&&◌, ◌||◌, Option, none,
  some, List, [], ◌∷◌, inl, inr, arith, Bool-cases, ◌==◌, eq_iff, nat_eq, if◌then◌else◌,
}
use api_gateway_gtc.Registry.{
  Registry, Entry, Transport, mark_inactive, deliver, dispatch, targets, find, Ascending,
}
use api_gateway_gtc.Registry.Invariant.{IsValid}
use api_gateway_gtc.Registry.View.{entry, Serves, deactivate, entry-mark_inactive}

abbrev pub contains : ℕ → List ℕ → Bool
contains id [] = false
contains id (j ∷ js) = nat_eq j id || contains id js

abbrev pub is_empty {ℓ} : {A : Type ℓ} → List A → Bool
is_empty [] = true
is_empty (x ∷ xs) = false

deactivate_twice : {W : Type 0} (o : Option (Entry W)) → deactivate (deactivate o) ≡ deactivate o
deactivate_twice none = refl
deactivate_twice (some e) = refl

module _ {W : Type 0} where
  targets_above :
      (key : String) (id n : ℕ) (m : List (ℕ × Entry W))
      → id < n
      → Ascending n m
      → find id (targets key m) ≡ none
  unfolding targets find
  targets_above key id n [] h a = refl
  targets_above key id n ((j, e) ∷ m) h a = ground (arith, targets_above key id (suc j) m)

  targets_found :
      (key : String) (id n : ℕ) (w : W) (m : List (ℕ × Entry W))
      → Ascending n m
      → find id (targets key m) ≡ some w
      → (s : Serves key id m) × (s.0.writer ≡ w)
  unfolding targets find
  targets_found key id n w [] a h = cc
  targets_found key id n w ((j, e) ∷ m) a h = elim (Bool-cases (e.active && e.key == key)) [
    | inl hit ↦ elim (Bool-cases (nat_eq j id)) [
      | inl here ↦ ((e, ground arith, ground arith, ground (arith, eq_iff e.key key)), ground arith)
      | inr there ↦ later (targets_found key id (suc j) w m a.1) (ground arith) there
    ]
    | inr miss ↦ elim (Bool-cases (nat_eq j id)) [
      | inl here ↦ absurd (ground (arith, targets_above key id (suc j) m))
      | inr there ↦ later (targets_found key id (suc j) w m a.1) (ground arith) there
    ]
  ]
    where
      later :
          (find id (targets key m) ≡ some w → (s : Serves key id m) × (s.0.writer ≡ w))
          → find id (targets key m) ≡ some w
          → nat_eq j id ≡ false
          → (s : Serves key id ((j, e) ∷ m)) × (s.0.writer ≡ w)
      later ih p there = let (s, eq) = ih p in ((s.0, ground arith, s.2, s.3), eq)

  targets_complete :
      (key : String) (id : ℕ) (m : List (ℕ × Entry W)) (e : Entry W)
      → find id m ≡ some e
      → e.active ≡ true
      → e.key ≡ key
      → find id (targets key m) ≡ some e.writer
  unfolding targets find
  targets_complete key id [] e h a k = cc
  targets_complete key id ((j, f) ∷ m) e h a k =
      ground (arith, targets_complete key id m e, eq_iff f.key key)

  -- In a well-formed registry the writers collected by `dispatch` are exactly those of the active
  -- entries with the key.
  pub targets_iff :
      (key : String) (id : ℕ) (w : W) (r : Registry W)
      → IsValid r
      → (find id (targets key r.entries) ≡ some w)
        ↔ ((s : Serves key id r.entries) × (s.0.writer ≡ w))
  targets_iff key id w r v = (
    targets_found key id 0 w r.entries v.ascending,
    λ p. targets_complete key id r.entries p.0.0 p.0.1 p.0.2 p.0.3 ∙ ap some p.1,
  )

next_id-mark_inactive :
    {W : Type 0} (id : ℕ) (r : Registry W) → (mark_inactive id r).next_id ≡ r.next_id
unfolding mark_inactive
next_id-mark_inactive id r = ground arith

module _ {W T S : Type 0} (t : Transport W T S) where
  -- The ids whose writes fail when the targets are written to one after the other.
  unfoldable pub failed : List (ℕ × W) → T → S → List ℕ
  failed [] x s = []
  failed ((id, w) ∷ ts) x s =
      let rest = failed ts x (t.write w x s).1 in if (t.write w x s).0 then rest else id ∷ rest

  -- The state of the connections when each target has been written to once, in order.
  unfoldable pub all_written : List (ℕ × W) → T → S → S
  all_written [] x s = s
  all_written ((id, w) ∷ ts) x s = all_written ts x (t.write w x s).1

  entry-deliver :
      (ts : List (ℕ × W)) (x : T) (r : Registry W) (s : S) (b : Bool) (j : ℕ)
      → entry (deliver t ts x r s b).0.0 j
        ≡ (if contains j (failed ts x s) then deactivate (entry r j) else entry r j)
  unfolding deliver failed
  entry-deliver [] x r s b j = refl
  entry-deliver ((id, w) ∷ ts) x r s b j = ground (
    arith,
    entry-deliver ts x (if (t.write w x s).0 then r else mark_inactive id r) (t.write w x s).1
        (if (t.write w x s).0 then b else false) j,
    entry-mark_inactive id j r,
    deactivate_twice (entry r j),
  )

  deliver_rest :
      (ts : List (ℕ × W)) (x : T) (r : Registry W) (s : S) (b : Bool)
      → ((deliver t ts x r s b).1 ≡ (b && is_empty (failed ts x s)))
        × ((deliver t ts x r s b).0.1 ≡ all_written ts x s)
        × ((deliver t ts x r s b).0.0.next_id ≡ r.next_id)
  unfolding deliver failed all_written
  deliver_rest [] x r s true = (refl, refl, refl)
  deliver_rest [] x r s false = (refl, refl, refl)
  deliver_rest ((id, w) ∷ ts) x r s b = ground (
    arith,
    deliver_rest ts x (if (t.write w x s).0 then r else mark_inactive id r) (t.write w x s).1
        (if (t.write w x s).0 then b else false),
    next_id-mark_inactive id r,
  )

  -- `dispatch` writes once to each of the targets in turn, whether or not earlier writes failed; it
  -- clears the flag of exactly the ids whose write failed, changes no other entry, and returns true
  -- exactly when no write failed.
  pub dispatch_lem :
      (key : String) (x : T) (r : Registry W) (s : S) (id : ℕ)
      → let ts = targets key r.entries in
        let after = dispatch t key x (r, s) in
        (entry after.0.0 id
          ≡ (if contains id (failed ts x s) then deactivate (entry r id) else entry r id))
        × (after.1 ≡ is_empty (failed ts x s))
        × (after.0.1 ≡ all_written ts x s)
        × (after.0.0.next_id ≡ r.next_id)
  unfolding dispatch
  dispatch_lem key x r s id =
      let ts = targets key r.entries in
      let rest = deliver_rest ts x r s true in
      (entry-deliver ts x r s true id, rest.0, rest.1, rest.2)

  failed_target :
      (ts : List (ℕ × W)) (x : T) (s : S) (j : ℕ)
      → contains j (failed ts x s) ≡ true
      → (w : W) × (find j ts ≡ some w)
  unfolding failed find
  failed_target [] x s j h = cc
  failed_target ((id, w) ∷ ts) x s j h = elim (Bool-cases (nat_eq id j)) [
    | inl here ↦ (w, ground arith)
    | inr there ↦
        let (v, p) = failed_target ts x (t.write w x s).1 j (ground arith) in (v, ground arith)
  ]

  -- In a well-formed registry `dispatch` leaves the entries of other keys as they were.
  pub dispatch_other_key :
      (key : String) (x : T) (r : Registry W) (s : S) (id : ℕ) (e : Entry W)
      → IsValid r
      → entry r id ≡ some e
      → e.key ≢ key
      → entry (dispatch t key x (r, s)).0.0 id ≡ some e
  dispatch_other_key key x r s id e v h ne =
      elim (Bool-cases (contains id (failed (targets key r.entries) x s))) [
        | inl hit ↦
            let (w, p) = failed_target (targets key r.entries) x s id hit in
            let (sv, _) = (targets_iff key id w r v).0 p in absurd (ne (ground (arith, sv.1, sv.3)))
        | inr miss ↦ ground (arith, dispatch_lem key x r s id)
      ]

  -- `dispatch` makes no entry active.
  pub dispatch_active :
      (key : String) (x : T) (r : Registry W) (s : S) (k : String) (id : ℕ)
      → Serves k id (dispatch t key x (r, s)).0.0.entries
      → Serves k id r.entries
  dispatch_active key x r s k id (e, p, a, h) = (e, ground (arith, dispatch_lem key x r s id), a, h)
