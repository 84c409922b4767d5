-- ===== src/Stream/Handlers/Owners.antt =====
-- Which handler an entry of the registry belongs to.
use api_gateway_gtc.Base.{
  ℕ, ◌≡◌, ◌≢◌, ap, String, true, false, none, some, arith, inl, inr, Bool-cases, Option-cases,
  nat_eq, nat_eq_iff, if◌then◌else◌,
}
use api_gateway_gtc.Registry.{Registry, Entry}
use api_gateway_gtc.Registry.Invariant.{IsValid}
use api_gateway_gtc.Registry.View.{entry, deactivate}
use api_gateway_gtc.Stream.Handlers.{Phase, starting, waiting, finished, move}

module _ {W : Type 0} (key : ℕ → String) (writer : ℕ → W) where
  -- The entry of a handler.
  abbrev pub Holds : Registry W → ℕ → ℕ → Type 0
  Holds r i id = (e : Entry W) × (entry r id ≡ some e) × (e.key ≡ key i) × (e.writer ≡ writer i)

  pub record IsOwned (r : Registry W) (phase : ℕ → Phase) : Type 0 where
    pub valid : IsValid r
    pub held : (i id : ℕ) → phase i ≡ waiting id → Holds r i id
    pub alone : (i j id : ℕ) → phase i ≡ waiting id → phase j ≡ waiting id → i ≡ j
    pub owner : (id : ℕ) (e : Entry W) → entry r id ≡ some e → (i : ℕ) × (phase i ≡ waiting id)

  -- The entry of a handler that has just subscribed.
  abbrev new : ℕ → Entry W
  new i = record { key = key i; writer = writer i; active = true }

  module _ (r q : Registry W) (phase : ℕ → Phase) (v : IsOwned r phase) (valid : IsValid q) where
    -- A handler gets a new entry.
    module _ (i n : ℕ)
        (slot : (id : ℕ) → entry q id ≡ (if nat_eq n id then some (new i) else entry r id))
        (fresh : entry r n ≡ none) (before : phase i ≡ starting) where
      added_held : (j id : ℕ) → move phase i (waiting n) j ≡ waiting id → Holds q j id
      added_held j id h = elim (Bool-cases (nat_eq i j)) [
        | inl here ↦
            let e : i ≡ j = (nat_eq_iff i j).0 here in
            (new i, ground (arith, slot id), ap key e, ap writer e)
        | inr there ↦
            let old = v.held j id (ground arith) in
            (old.0, ground (arith, slot id, fresh, old.1), old.2, old.3)
      ]

      not_taken : (j : ℕ) → phase j ≢ waiting n
      not_taken j h = let old = v.held j n h in cc (old.1, fresh)

      added_alone :
          (j k id : ℕ)
          → move phase i (waiting n) j ≡ waiting id
          → move phase i (waiting n) k ≡ waiting id
          → j ≡ k
      added_alone j k id p q = elim (Bool-cases (nat_eq i j)) [
        | inl here ↦ elim (Bool-cases (nat_eq i k)) [
          | inl too ↦ ground arith
          | inr there ↦ absurd (not_taken k (ground arith))
        ]
        | inr there ↦ elim (Bool-cases (nat_eq i k)) [
          | inl here ↦ absurd (not_taken j (ground arith))
          | inr too ↦ v.alone j k id (ground arith) (ground arith)
        ]
      ]

      added_owner :
          (id : ℕ) (e : Entry W)
          → entry q id ≡ some e
          → (j : ℕ) × (move phase i (waiting n) j ≡ waiting id)
      added_owner id e h = elim (Bool-cases (nat_eq n id)) [
        | inl here ↦ (i, ground arith)
        | inr there ↦
            let old = v.owner id e (ground (arith, slot id)) in
            (old.0, ground (arith, old.1, before))
      ]

      pub added-IsOwned : IsOwned q (move phase i (waiting n))
      added-IsOwned = record {
        valid = valid;
        held = added_held;
        alone = added_alone;
        owner = added_owner;
      }

    -- A handler gives its entry up.
    module _ (i id : ℕ) (slot : (j : ℕ) → entry q j ≡ (if nat_eq id j then none else entry r j))
        (before : phase i ≡ waiting id) where
      removed_held : (j k : ℕ) → move phase i finished j ≡ waiting k → Holds q j k
      removed_held j k h = elim (Bool-cases (nat_eq i j)) [
        | inl here ↦ absurd (ground arith)
        | inr there ↦
            let p : phase j ≡ waiting k = ground arith in
            let old = v.held j k p in
            (old.0, ground (arith, slot k, old.1, v.alone i j k), old.2, old.3)
      ]

      removed_alone :
          (j k m : ℕ)
          → move phase i finished j ≡ waiting m
          → move phase i finished k ≡ waiting m
          → j ≡ k
      removed_alone j k m p q = ground (arith, v.alone j k m)

      removed_owner :
          (k : ℕ) (e : Entry W)
          → entry q k ≡ some e
          → (j : ℕ) × (move phase i finished j ≡ waiting k)
      removed_owner k e h =
          let kept : entry r k ≡ some e = ground (arith, slot k) in
          let old = v.owner k e kept in (old.0, ground (arith, old.1, slot k))

      pub removed-IsOwned : IsOwned q (move phase i finished)
      removed-IsOwned = record {
        valid = valid;
        held = removed_held;
        alone = removed_alone;
        owner = removed_owner;
      }

    -- A flag is cleared.
    module _ (id : ℕ)
        (slot : (j : ℕ)
          → entry q j ≡ (if nat_eq id j then deactivate (entry r j) else entry r j)) where
      marked_held : (j k : ℕ) → phase j ≡ waiting k → Holds q j k
      marked_held j k h =
          let old = v.held j k h in
          elim (Bool-cases (nat_eq id k)) [
            | inl here ↦
                (record old.0 { active = false }, ground (arith, slot k, old.1), old.2, old.3)
            | inr there ↦ (old.0, ground (arith, slot k, old.1), old.2, old.3)
          ]

      marked_owner : (k : ℕ) (e : Entry W) → entry q k ≡ some e → (j : ℕ) × (phase j ≡ waiting k)
      marked_owner k e h = elim (Option-cases (entry r k)) [
        | inl absent ↦ absurd (ground (arith, slot k, absent))
        | inr (old, p) ↦ v.owner k old p
      ]

      pub marked-IsOwned : IsOwned q phase
      marked-IsOwned = record {
        valid = valid;
        held = marked_held;
        alone = v.alone;
        owner = marked_owner;
      }

  -- A handler that has not subscribed goes.
  pub refused-IsOwned :
      (r : Registry W) (phase : ℕ → Phase) (i : ℕ)
      → IsOwned r phase
      → phase i ≡ starting
      → IsOwned r (move phase i finished)
  refused-IsOwned r phase i v before = record {
    valid = v.valid;
    held = λ j k h. v.held j k (ground arith);
    alone = λ j k m p q. v.alone j k m (ground arith) (ground arith);
    owner = λ k e h. let old = v.owner k e h in (old.0, ground (arith, old.1, before));
  }
