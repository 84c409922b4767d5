-- ===== src/Registry/Refines.antt =====
-- The methods of the registry beside the table of Registry/Table.
use api_gateway_gtc.Base.{
  ℕ, suc, ◌+◌, ◌^◌, ◌<◌, ◌≤◌, String, ◌≡◌, refl, ◌↔◌, ap, fun_ext, Bool, true, some, List, [], ◌∷◌,
  length, inl, inr, arith, Option-cases,
}
use api_gateway_gtc.Registry.{
  Registry, Entry, Transport, find, Ascending, Ascending-mono, find-assign, add_entry, remove_entry,
  is_active, targets,
}
use api_gateway_gtc.Registry.Invariant.{
  IsValid, find_next, add_entry-IsValid, remove_entry-IsValid, dispatch-IsValid,
}
use api_gateway_gtc.Registry.View.{
  entry, has_active_writers_iff, entry-remove_entry, remove_entry_last,
}
use api_gateway_gtc.Registry.Dispatch.{dispatch_lem, targets_iff}
use api_gateway_gtc.Registry.Table.{
  Op, add, remove, send, ask_active, ask_writers, given, flag, perform, perform_all, table, update,
  Allows, Runs, done, call,
}

module _ {W : Type 0} where
  Ascending-targets :
      (key : String) (n : ℕ) (m : List (ℕ × Entry W)) → Ascending n m → Ascending n (targets key m)
  unfolding targets
  Ascending-targets key n [] a = tt
  Ascending-targets key n ((j, e) ∷ m) a =
      ground (arith, Ascending-targets key (suc j) m, Ascending-mono n (suc j) (targets key m))

  id-add_entry : (key : String) (w : W) (r : Registry W) → (add_entry key w r).1 ≡ r.next_id
  unfolding add_entry
  id-add_entry key w r = refl

  slot-add_entry :
      (key : String) (w : W) (r : Registry W) (j : ℕ)
      → entry (add_entry key w r).0 j
        ≡ update (entry r) r.next_id (some (record { key = key; writer = w; active = true })) j
  unfolding add_entry
  slot-add_entry key w r j = find-assign r.next_id j _ r.entries

  next_id-add_entry :
      (key : String) (w : W) (r : Registry W)
      → r.next_id + 1 < 2 ^ 64
      → (add_entry key w r).0.next_id ≡ suc r.next_id
  unfolding add_entry
  next_id-add_entry key w r room = ground arith

  next_id-remove_entry : (id : ℕ) (r : Registry W) → (remove_entry id r).0.next_id ≡ r.next_id
  unfolding remove_entry
  next_id-remove_entry id r = ground arith

  is_active_iff :
      (id : ℕ) (r : Registry W)
      → (is_active id r ≡ true) ↔ ((e : Entry W) × (entry r id ≡ some e) × (e.active ≡ true))
  unfolding is_active
  is_active_iff id r = elim (Option-cases (find id r.entries)) [
    | inl e ↦ (λ h. absurd (ground arith), λ h. absurd (ground (arith, h.1)))
    | inr (e, p) ↦ (λ h. (e, p, ground arith), λ h. ground (arith, h.1, h.2))
  ]

-- A flag is true when its test is.
flag_iff : {P : Type 0} (b : Bool) → (b ≡ true) ↔ P → (flag b ≡ flag true) ↔ P
flag_iff b (f, g) = (λ h. f (cc), λ p. ap flag (g p))

module _ {W T S : Type 0} (t : Transport W T S) where
  pub perform-Allows :
      (op : Op W T) (r : Registry W) (s : S)
      → IsValid r
      → r.next_id + 1 < 2 ^ 64
      → let after = perform t op (r, s) in
        Allows t op (table r, s) ((table after.0.0, after.0.1), after.1)
  unfolding perform
  perform-Allows (add key w) r s v room = (
    ap given (id-add_entry key w r),
    find_next r v,
    fun_ext λ j. slot-add_entry key w r j,
    next_id-add_entry key w r room,
    refl,
  )
  perform-Allows (remove id) r s v room = (
    fun_ext λ j. entry-remove_entry id j r v,
    next_id-remove_entry id r,
    refl,
    flag_iff (remove_entry id r).1 (remove_entry_last id r v),
  )
  perform-Allows (send key x) r s v room =
      let d = dispatch_lem t key x r s in
      (
        targets key r.entries,
        Ascending-targets key 0 r.entries v.ascending,
        λ id w. targets_iff key id w r v,
        (d 0).2,
        fun_ext λ id. (d id).0,
        (d 0).3,
        ap flag (d 0).1,
      )
  perform-Allows (ask_active id) r s v room = (refl, refl, flag_iff _ (is_active_iff id r))
  perform-Allows (ask_writers key) r s v room =
      (refl, refl, flag_iff _ (has_active_writers_iff key r v))

  perform-IsValid :
      (op : Op W T) (r : Registry W) (s : S)
      → IsValid r
      → r.next_id + 1 < 2 ^ 64
      → IsValid (perform t op (r, s)).0.0
  unfolding perform
  perform-IsValid (add key w) r s v room = add_entry-IsValid key w r v room
  perform-IsValid (remove id) r s v room = remove_entry-IsValid id r v
  perform-IsValid (send key x) r s v room = dispatch-IsValid t key x r s v
  perform-IsValid (ask_active id) r s v room = v
  perform-IsValid (ask_writers key) r s v room = v

  next_id-perform :
      (op : Op W T) (r : Registry W) (s : S)
      → r.next_id + 1 < 2 ^ 64
      → (perform t op (r, s)).0.0.next_id ≤ r.next_id + 1
  unfolding perform
  next_id-perform (add key w) r s room = omega (arith, next_id-add_entry key w r room)
  next_id-perform (remove id) r s room = omega (arith, next_id-remove_entry id r)
  next_id-perform (send key x) r s room = omega (arith, (dispatch_lem t key x r s 0).3)
  next_id-perform (ask_active id) r s room = omega arith
  next_id-perform (ask_writers key) r s room = omega arith

  -- Any sequence of calls of the registry, from a well-formed one with ids left for it, is a run
  -- of the table: `addEntry` gives a new id each time, `removeEntry` empties a slot and tells
  -- exactly whether it was the last with its key, `dispatch` writes once to exactly the active
  -- entries with the key in the order of the ids and deactivates exactly those whose write failed,
  -- and the tests tell what the table holds; the registry stays well formed.
  pub perform_all-Runs :
      (ops : List (Op W T)) (r : Registry W) (s : S)
      → IsValid r
      → r.next_id + length ops < 2 ^ 64
      → let after = perform_all t ops (r, s) in
        Runs t ops (table r, s) ((table after.0.0, after.0.1), after.1) × IsValid after.0.0
  unfolding perform_all
  perform_all-Runs [] r s v room = (done (table r, s), v)
  perform_all-Runs (op ∷ ops) r s v room =
      let next = (perform t op (r, s)).0 in
      let one : r.next_id + 1 < 2 ^ 64 = omega arith in
      let rest =
        perform_all-Runs ops next.0 next.1 (perform-IsValid op r s v one)
          (omega (arith, next_id-perform op r s one)) in
      (call (perform-Allows op r s v one) rest.0, rest.1)
