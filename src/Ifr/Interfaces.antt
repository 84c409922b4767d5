-- ===== src/Ifr/Interfaces.antt =====
-- The cache of the interfaces: asking through it is asking the repository.
use api_gateway_gtc.Base.{
  String, ◌≡◌, refl, sym, arith, Option, none, some, eq_iff, eq_refl, Option-cases, inl, inr,
}
use api_gateway_gtc.Base.Outcome.{Outcome, ok, throw, bind}
use api_gateway_gtc.Ifr.{
  InterfaceInfo, Repository, IfrClient, populate_cache, remember, fetch_from_ifr,
  describe_interface, lookup, emplace,
}
use api_gateway_gtc.Ifr.Cache.{lookup-emplace}

module _ {Contained InterfaceDef TypeCode : Type 0}
    (repository : Repository Contained InterfaceDef TypeCode) where
  -- What is cached is what the repository answers.
  abbrev pub Faithful : IfrClient TypeCode → Type 0
  Faithful ifr =
      (repid : String) (info : InterfaceInfo TypeCode)
      → lookup repid ifr.interface_cache ≡ some info
      → fetch_from_ifr repository repid ≡ ok info

  remember-Faithful :
      (repid : String) (info : InterfaceInfo TypeCode) (ifr : IfrClient TypeCode)
      → fetch_from_ifr repository repid ≡ ok info
      → Faithful ifr
      → Faithful (remember repid info ifr)
  unfolding remember populate_cache
  remember-Faithful repid info ifr h v other found p =
      elim (Option-cases (lookup repid ifr.interface_cache)) [
        | inr (old, e) ↦ unfold emplace in ground (arith, v other found)
        | inl e ↦ ground (
          arith,
          lookup-emplace repid other info ifr.interface_cache,
          v other found,
          eq_iff repid other,
        )
      ]

  remembered :
      (repid : String) (i info : InterfaceInfo TypeCode) (ifr : IfrClient TypeCode)
      → lookup repid ifr.interface_cache ≡ none
      → ok i ≡ ok info
      → lookup repid (remember repid i ifr).interface_cache ≡ some info
  unfolding remember populate_cache
  remembered repid i info ifr m h =
      ground (arith, lookup-emplace repid repid i ifr.interface_cache, eq_refl repid)

  pub describe_interface_facts :
      (repid : String) (ifr : IfrClient TypeCode)
      → Faithful ifr
      → let r = describe_interface repository repid ifr in
        (r.0 ≡ fetch_from_ifr repository repid)
        × Faithful r.1
        × ((info : InterfaceInfo TypeCode)
            → r.0 ≡ ok info
            → lookup repid r.1.interface_cache ≡ some info)
  unfolding describe_interface
  describe_interface_facts repid ifr v = by (lookup repid ifr.interface_cache) refl
    where
      fetched :
          (o : Outcome (InterfaceInfo TypeCode))
          → fetch_from_ifr repository repid ≡ o
          → lookup repid ifr.interface_cache ≡ none
          → let r = bind (o, ifr) (λ info s. (ok info, remember repid info s)) in
            (r.0 ≡ o)
            × Faithful r.1
            × ((info : InterfaceInfo TypeCode)
                → r.0 ≡ ok info
                → lookup repid r.1.interface_cache ≡ some info)
      fetched (throw e) f m = (refl, v, λ info h. cc)
      fetched (ok i) f m =
          (refl, remember-Faithful repid i ifr f v, λ info h. remembered repid i info ifr m h)

      by :
          (o : Option (InterfaceInfo TypeCode))
          → lookup repid ifr.interface_cache ≡ o
          → let r = describe_interface repository repid ifr in
            (r.0 ≡ fetch_from_ifr repository repid)
            × Faithful r.1
            × ((info : InterfaceInfo TypeCode)
                → r.0 ≡ ok info
                → lookup repid r.1.interface_cache ≡ some info)
      by none e = rw (describe_interface, e) (fetched (fetch_from_ifr repository repid) refl e)
      by (some i) e = rw (describe_interface, e) (sym (v repid i e), v, λ info h. ground (arith, e))

  -- With a cache that agrees with the repository, `describeInterface` gives what the repository
  -- answers, exceptions included, and the cache still agrees.
  pub describe_interface_lem :
      (repid : String) (ifr : IfrClient TypeCode)
      → Faithful ifr
      → ((describe_interface repository repid ifr).0 ≡ fetch_from_ifr repository repid)
        × Faithful (describe_interface repository repid ifr).1
  describe_interface_lem repid ifr v =
      let facts = describe_interface_facts repid ifr v in (facts.0, facts.1)
