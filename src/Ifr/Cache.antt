-- ===== src/Ifr/Cache.antt =====
-- An `std::unordered_map` with texts as keys: the pairs, of which the first with a key counts.
use api_gateway_gtc.Base.{
  String, ◌≡◌, arith, Option, none, some, List, [], ◌∷◌, ◌==◌, if◌then◌else◌,
}

module _ {V : Type 0} where
  unfoldable pub lookup : String → List (String × V) → Option V
  lookup key [] = none
  lookup key ((k, v) ∷ rest) = if k == key then some v else lookup key rest

  -- `map[key] = v`.
  unfoldable pub insert : String → V → List (String × V) → List (String × V)
  insert key v m = (key, v) ∷ m

  -- `map.emplace(key, v)`: a key that is there keeps its value.
  unfoldable pub emplace : String → V → List (String × V) → List (String × V)
  unfolding lookup insert
  emplace key v m = elim (lookup key m) [ none ↦ insert key v m | some old ↦ m ]

  pub lookup-insert :
      (key other : String) (v : V) (m : List (String × V))
      → lookup other (insert key v m) ≡ (if key == other then some v else lookup other m)
  unfolding lookup insert
  lookup-insert key other v m = ground arith

  pub lookup-emplace :
      (key other : String) (v : V) (m : List (String × V))
      → lookup key m ≡ none
      → lookup other (emplace key v m) ≡ (if key == other then some v else lookup other m)
  unfolding emplace
  lookup-emplace key other v m h = rw (emplace, h, lookup-insert key other v m)
