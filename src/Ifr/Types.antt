-- ===== src/Ifr/Types.antt =====
-- The cache of the return types: what `populateCache` writes and `returnTypeCode` reads.
use text.Mathlib.TextLemmas.{append_cancel_left}
use api_gateway_gtc.Base.{
  String, ◌++◌, ◌≡◌, refl, ap, ◌∙◌, arith, Option, none, some, List, [], ◌∷◌, ◌==◌, if◌then◌else◌,
  eq_iff, eq_refl, Bool-cases, inl, inr, Option-cases,
}
use api_gateway_gtc.Base.Outcome.{Outcome, ok, throw, runtime_error, and_then, bind}
use api_gateway_gtc.Ifr.{
  OperationInfo, InterfaceInfo, Repository, IfrClient, get_interface, cache_key, populate,
  populate_cache, remember, cached_type, narrowed, contained, fetch_from_ifr, return_type_code,
  lookup, insert,
}
use api_gateway_gtc.Ifr.Cache.{lookup-insert}

cache_key_injective : (repid m n : String) → cache_key repid m ≡ cache_key repid n → m ≡ n
unfolding cache_key
cache_key_injective repid m n e =
    append_cancel_left "#" m n (append_cancel_left repid ("#" ++ m) ("#" ++ n) e)

same_key : (repid m n : String) → (cache_key repid m == cache_key repid n) ≡ (m == n)
same_key repid m n = elim (Bool-cases (m == n)) [
  | inl same ↦ rw (same, (eq_iff m n).0 same) (eq_refl (cache_key repid n))
  | inr other ↦ ground (
    arith,
    eq_iff m n,
    eq_iff (cache_key repid m) (cache_key repid n),
    cache_key_injective repid m n,
  )
]

module _ {TypeCode : Type 0} where
  abbrev later_or : Option TypeCode → Option TypeCode → Option TypeCode
  later_or (some t) d = some t
  later_or none d = d

  -- The return type of the last operation with the name.
  abbrev pub op_type : String → List (OperationInfo TypeCode) → Option TypeCode
  op_type method [] = none
  op_type method (op ∷ operations) =
      later_or (op_type method operations) (if op.name == method then some op.return_tc else none)

  later_or_assoc : (a b c : Option TypeCode) → later_or a (later_or b c) ≡ later_or (later_or a b) c
  later_or_assoc (some t) b c = refl
  later_or_assoc none b c = refl

  lookup-populate :
      (repid method : String) (operations : List (OperationInfo TypeCode))
      (cache : List (String × TypeCode))
      → lookup (cache_key repid method) (populate repid operations cache)
        ≡ later_or (op_type method operations) (lookup (cache_key repid method) cache)
  unfolding populate
  lookup-populate repid method [] cache = refl
  lookup-populate repid method (op ∷ operations) cache =
      lookup-populate repid method operations (insert (cache_key repid op.name) op.return_tc cache)
      ∙ ap (later_or (op_type method operations)) (
          lookup-insert (cache_key repid op.name) (cache_key repid method) op.return_tc cache
          ∙ split (same_key repid op.name method))
      ∙ later_or_assoc (op_type method operations)
          (if op.name == method then some op.return_tc else none)
          (lookup (cache_key repid method) cache)
    where
      split :
          (cache_key repid op.name == cache_key repid method) ≡ (op.name == method)
          → (if cache_key repid op.name == cache_key repid method
              then some op.return_tc
              else lookup (cache_key repid method) cache)
            ≡ later_or
                (if op.name == method then some op.return_tc else none)
                (lookup (cache_key repid method) cache)
      split e = ground arith

module _ {Contained InterfaceDef TypeCode : Type 0}
    (repository : Repository Contained InterfaceDef TypeCode) where
  repid-fetch_from_ifr :
      (repid : String) (info : InterfaceInfo TypeCode)
      → fetch_from_ifr repository repid ≡ ok info
      → info.repid ≡ repid
  unfolding fetch_from_ifr contained narrowed get_interface
  repid-fetch_from_ifr repid info h = ground arith

  -- `returnTypeCode` of a method with no cached type gives the result type of the last operation
  -- with that name that the repository describes, and throws if there is none or if the repository
  -- throws.
  return_type_code-fetches :
      (repid method : String) (ifr : IfrClient TypeCode)
      → lookup (cache_key repid method) ifr.tc_cache ≡ none
      → (return_type_code repository repid method ifr).0
        ≡ and_then (fetch_from_ifr repository repid) (λ info.
          elim (op_type method info.operations) [
            | some tc ↦ ok tc
            | none ↦ throw (
                runtime_error
                  ("IfrClient: method not found in interface: " ++ cache_key repid method))
          ])
  unfolding return_type_code
  return_type_code-fetches repid method ifr h =
      rw (return_type_code, h)
        (after (fetch_from_ifr repository repid) (repid-fetch_from_ifr repid))
    where
      after :
          (o : Outcome (InterfaceInfo TypeCode))
          → ((info : InterfaceInfo TypeCode) → o ≡ ok info → info.repid ≡ repid)
          → (bind
              (o, ifr)
              (λ info s. cached_type (cache_key repid method) (remember repid info s))).0
            ≡ and_then o (λ info. elim (op_type method info.operations) [
              | some tc ↦ ok tc
              | none ↦ throw (
                  runtime_error
                    ("IfrClient: method not found in interface: " ++ cache_key repid method))
            ])
      after (throw e) same = refl
      after (ok info) same =
          let found : lookup (cache_key repid method)
                (populate info.repid info.operations ifr.tc_cache)
              ≡ later_or (op_type method info.operations) none =
            rw (same info refl, lookup-populate repid method info.operations ifr.tc_cache, h)
              refl in
          unfold cached_type remember populate_cache in
          elim (Option-cases (op_type method info.operations)) [
            | inl e ↦ ground (arith, found)
            | inr (tc, e) ↦ ground (arith, found)
          ]

  cached_type-given :
      (key : String) (ifr : IfrClient TypeCode) (tc : TypeCode)
      → (cached_type key ifr).0 ≡ ok tc
      → lookup key (cached_type key ifr).1.tc_cache ≡ some tc
  unfolding cached_type
  cached_type-given key ifr tc h = ground arith

  cached_again :
      (other : Repository Contained InterfaceDef TypeCode) (repid method : String)
      (ifr : IfrClient TypeCode) (tc : TypeCode)
      → lookup (cache_key repid method) ifr.tc_cache ≡ some tc
      → return_type_code other repid method ifr ≡ (ok tc, ifr)
  unfolding return_type_code
  cached_again other repid method ifr tc h = ground arith

  -- What `returnTypeCode` has given once it gives again without the repository, and the caches
  -- stay.
  return_type_code-again :
      (other : Repository Contained InterfaceDef TypeCode) (repid method : String)
      (ifr : IfrClient TypeCode) (tc : TypeCode)
      → let r = return_type_code repository repid method ifr in
        r.0 ≡ ok tc → return_type_code other repid method r.1 ≡ (ok tc, r.1)
  unfolding return_type_code lookup
  return_type_code-again other repid method ifr tc h =
      cached_again other repid method (return_type_code repository repid method ifr).1 tc
        (given (lookup (cache_key repid method) ifr.tc_cache) refl h)
    where
      key : String
      key = cache_key repid method

      fetched :
          (o : Outcome (InterfaceInfo TypeCode))
          → (bind (o, ifr) (λ info s. cached_type key (remember repid info s))).0 ≡ ok tc
          → lookup key
              (bind (o, ifr) (λ info s. cached_type key (remember repid info s))).1.tc_cache
            ≡ some tc
      fetched (throw e) g = cc
      fetched (ok info) g = cached_type-given key (remember repid info ifr) tc g

      given :
          (o : Option TypeCode)
          → lookup key ifr.tc_cache ≡ o
          → (return_type_code repository repid method ifr).0 ≡ ok tc
          → lookup key (return_type_code repository repid method ifr).1.tc_cache ≡ some tc
      given none e = rw (return_type_code, e) (fetched (fetch_from_ifr repository repid))
      given (some t) e = rw (return_type_code, e) (λ g. ground (arith, e))
