-- ===== src/Registry/Canonical.antt =====
-- `entries_` holds its pairs in the order of the ids, so the registry is what can be looked up in it.
use api_gateway_gtc.Base.{ℕ, suc, ◌≡◌, refl, sym, ◌≢◌, none, List, [], ◌∷◌, arith}
use api_gateway_gtc.Registry.{Registry, find, Ascending, Ascending-mono, find_below}
use api_gateway_gtc.Registry.Invariant.{IsValid}
use api_gateway_gtc.Registry.View.{entry}

module _ {V : Type 0} where
  apart : (k : ℕ) (w : V) (q : List (ℕ × V)) → none ≢ find k ((k, w) ∷ q)
  unfolding find
  apart k w q h = ground arith

  head_key :
      (n j k : ℕ) (v w : V) (m q : List (ℕ × V))
      → Ascending n ((j, v) ∷ m)
      → Ascending n ((k, w) ∷ q)
      → ((i : ℕ) → find i ((j, v) ∷ m) ≡ find i ((k, w) ∷ q))
      → j ≡ k
  unfolding find
  head_key n j k v w m q a b h =
      ground (arith, h j, h k, find_below j (suc k) q, find_below k (suc j) m)

  head_value :
      (j k : ℕ) (v w : V) (m q : List (ℕ × V))
      → j ≡ k
      → find j ((j, v) ∷ m) ≡ find j ((k, w) ∷ q)
      → v ≡ w
  unfolding find
  head_value j k v w m q e h = ground arith

  tail_found :
      (n j k i : ℕ) (v w : V) (m q : List (ℕ × V))
      → Ascending n ((j, v) ∷ m)
      → Ascending n ((k, w) ∷ q)
      → j ≡ k
      → find i ((j, v) ∷ m) ≡ find i ((k, w) ∷ q)
      → find i m ≡ find i q
  unfolding find
  tail_found n j k i v w m q a b e h =
      ground (arith, find_below j (suc j) m, find_below k (suc k) q)

  -- Two maps with the same lookups are the same.
  pub find-injective :
      (n : ℕ) (m q : List (ℕ × V))
      → Ascending n m
      → Ascending n q
      → ((i : ℕ) → find i m ≡ find i q)
      → m ≡ q
  unfolding find
  find-injective n [] [] a b h = refl
  find-injective n [] ((k, w) ∷ q) a b h = absurd (apart k w q (h k))
  find-injective n ((j, v) ∷ m) [] a b h = absurd (apart j v m (sym (h j)))
  find-injective n ((j, v) ∷ m) ((k, w) ∷ q) a b h =
      let e : j ≡ k = head_key n j k v w m q a b h in
      let value : v ≡ w = head_value j k v w m q e (h j) in
      let tails : m ≡ q =
        find-injective (suc j) m q a.1 (Ascending-mono (suc j) (suc k) q (omega arith) b.1)
          (λ i. tail_found n j k i v w m q a b e (h i)) in
      cc

-- Two well-formed registries with the same entry at each id and the same next id are the same.
pub entry-injective :
    {W : Type 0} (r q : Registry W)
    → IsValid r
    → IsValid q
    → ((id : ℕ) → entry r id ≡ entry q id)
    → r.next_id ≡ q.next_id
    → r ≡ q
entry-injective r q v u h n =
    let e : r.entries ≡ q.entries =
      find-injective 0 r.entries q.entries v.ascending u.ascending h in
    cc
