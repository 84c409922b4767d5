-- ===== src/Registry/Map.antt =====
-- `std::map<uint64_t, V>` as the list of its pairs in ascending order of the keys.
use api_gateway_gtc.Base.{
  ℕ, suc, ◌≤◌, ◌<◌, ◌≡◌, refl, Option, none, some, List, [], ◌∷◌, ltb, nat_eq, if◌then◌else◌, arith,
}

module _ {V : Type 0} where
  unfoldable pub find : ℕ → List (ℕ × V) → Option V
  find k [] = none
  find k ((j, v) ∷ m) = if nat_eq j k then some v else find k m

  -- `m[k] = v`.
  unfoldable pub assign : ℕ → V → List (ℕ × V) → List (ℕ × V)
  assign k v [] = (k, v) ∷ []
  assign k v ((j, w) ∷ m) =
      if nat_eq j k
      then (k, v) ∷ m
      else (if ltb k j then (k, v) ∷ (j, w) ∷ m else (j, w) ∷ assign k v m)

  -- `m.erase(m.find(k))`.
  unfoldable pub erase : ℕ → List (ℕ × V) → List (ℕ × V)
  erase k [] = []
  erase k ((j, w) ∷ m) = if nat_eq j k then m else (j, w) ∷ erase k m

  -- The keys ascend from `n` on.
  abbrev pub Ascending : ℕ → List (ℕ × V) → Type 0
  Ascending n [] = Unit {0}
  Ascending n ((k, v) ∷ m) = (n ≤ k) × Ascending (suc k) m

  -- The keys are below `n`.
  abbrev pub AllBelow : ℕ → List (ℕ × V) → Type 0
  AllBelow n [] = Unit {0}
  AllBelow n ((k, v) ∷ m) = (k < n) × AllBelow n m

  pub Ascending-mono : (n n' : ℕ) (m : List (ℕ × V)) → n ≤ n' → Ascending n' m → Ascending n m
  Ascending-mono n n' [] h a = tt
  Ascending-mono n n' ((k, v) ∷ m) h a = (omega arith, a.1)

  -- No key below the first.
  pub find_below : (k n : ℕ) (m : List (ℕ × V)) → k < n → Ascending n m → find k m ≡ none
  unfolding find
  find_below k n [] h a = refl
  find_below k n ((j, v) ∷ m) h a = ground (arith, find_below k (suc j) m)

  pub find_above : (k n : ℕ) (m : List (ℕ × V)) → n ≤ k → AllBelow n m → find k m ≡ none
  unfolding find
  find_above k n [] h b = refl
  find_above k n ((j, v) ∷ m) h b = ground (arith, find_above k n m)

  -- A write at `k` is read at `k`, and nowhere else.
  pub find-assign :
      (k j : ℕ) (v : V) (m : List (ℕ × V))
      → find j (assign k v m) ≡ (if nat_eq k j then some v else find j m)
  unfolding find assign
  find-assign k j v [] = refl
  find-assign k j v ((i, w) ∷ m) = ground (arith, find-assign k j v m)

  pub find-erase :
      (k j n : ℕ) (m : List (ℕ × V))
      → Ascending n m
      → find j (erase k m) ≡ (if nat_eq k j then none else find j m)
  unfolding find erase
  find-erase k j n [] a = ground arith
  find-erase k j n ((i, w) ∷ m) a =
      ground (arith, find-erase k j (suc i) m a.1, find_below k (suc i) m)

  pub assign-Ascending :
      (k n : ℕ) (v : V) (m : List (ℕ × V)) → n ≤ k → Ascending n m → Ascending n (assign k v m)
  unfolding assign
  assign-Ascending k n v [] h a = (h, tt)
  assign-Ascending k n v ((j, w) ∷ m) h a =
      ground (arith, assign-Ascending k (suc j) v m, Ascending-mono (suc k) (suc j) m)

  pub erase-Ascending : (k n : ℕ) (m : List (ℕ × V)) → Ascending n m → Ascending n (erase k m)
  unfolding erase
  erase-Ascending k n [] a = tt
  erase-Ascending k n ((j, w) ∷ m) a =
      ground (arith, erase-Ascending k (suc j) m, Ascending-mono n (suc j) m)

  pub assign-AllBelow :
      (k n : ℕ) (v : V) (m : List (ℕ × V)) → k < n → AllBelow n m → AllBelow n (assign k v m)
  unfolding assign
  assign-AllBelow k n v [] h b = (h, tt)
  assign-AllBelow k n v ((j, w) ∷ m) h b = ground (arith, assign-AllBelow k n v m)

  pub AllBelow-mono : (n n' : ℕ) (m : List (ℕ × V)) → n ≤ n' → AllBelow n m → AllBelow n' m
  AllBelow-mono n n' [] h b = tt
  AllBelow-mono n n' ((k, v) ∷ m) h b = (omega arith, AllBelow-mono n n' m h b.1)

  pub erase-AllBelow : (k n : ℕ) (m : List (ℕ × V)) → AllBelow n m → AllBelow n (erase k m)
  unfolding erase
  erase-AllBelow k n [] b = tt
  erase-AllBelow k n ((j, w) ∷ m) b = ground (arith, erase-AllBelow k n m)
