-- ===== src/Ifr/Preload.antt =====
-- What `preloadAll` leaves in the cache of the interfaces.
use api_gateway_gtc.Base.{
  String, ◌≡◌, refl, ap, ◌∙◌, arith, Option, none, some, List, [], ◌∷◌, eq_iff, All,
}
use api_gateway_gtc.Base.Outcome.{Outcome, ok, throw, runtime_error, invalid_argument, corba, bind}
use api_gateway_gtc.Ifr.{
  InterfaceInfo, Repository, IfrClient, populate_cache, remember, fetch_from_ifr,
  describe_interface, warned, preload, preload_all, lookup,
}
use api_gateway_gtc.Ifr.Cache.{lookup-emplace}
use api_gateway_gtc.Ifr.Interfaces.{Faithful, describe_interface_facts}

module _ {Contained InterfaceDef TypeCode : Type 0}
    (repository : Repository Contained InterfaceDef TypeCode) where
  -- The interfaces of these ids are cached: all that the repository describes.
  abbrev pub Cached : List (Outcome String) → IfrClient TypeCode → Type 0
  Cached ids ifr =
      All
        (λ id.
          (repid : String) (info : InterfaceInfo TypeCode)
          → id ≡ ok repid
          → fetch_from_ifr repository repid ≡ ok info
          → lookup repid ifr.interface_cache ≡ some info)
        ids

  -- What is cached stays cached.
  describe_interface-keeps :
      (repid other : String) (info : InterfaceInfo TypeCode) (ifr : IfrClient TypeCode)
      → lookup other ifr.interface_cache ≡ some info
      → lookup other (describe_interface repository repid ifr).1.interface_cache ≡ some info
  unfolding describe_interface
  describe_interface-keeps repid other info ifr h = by (lookup repid ifr.interface_cache) refl
    where
      fetched :
          (o : Outcome (InterfaceInfo TypeCode))
          → lookup repid ifr.interface_cache ≡ none
          → lookup other (bind (o, ifr) (λ i s. (ok i, remember repid i s))).1.interface_cache
            ≡ some info
      fetched (throw e) m = h
      fetched (ok i) m =
          unfold remember populate_cache in
          ground (arith, lookup-emplace repid other i ifr.interface_cache, eq_iff repid other)

      by :
          (o : Option (InterfaceInfo TypeCode))
          → lookup repid ifr.interface_cache ≡ o
          → lookup other (describe_interface repository repid ifr).1.interface_cache ≡ some info
      by none e = rw (describe_interface, e) (fetched (fetch_from_ifr repository repid) e)
      by (some i) e = rw (describe_interface, e) h

  warned_state :
      (r : Outcome (InterfaceInfo TypeCode) × IfrClient TypeCode) → (warned repository r).1 ≡ r.1
  warned_state (ok info, ifr) = refl
  warned_state (throw (runtime_error what), ifr) = refl
  warned_state (throw (invalid_argument what), ifr) = refl
  warned_state (throw (corba name), ifr) = refl

  -- One turn of the loop of `preloadAll`.
  abbrev turn : Outcome String → IfrClient TypeCode → Outcome (Unit {0}) × IfrClient TypeCode
  turn id ifr = warned repository (bind (id, ifr) (describe_interface repository))

  abbrev pub Keeps : IfrClient TypeCode → IfrClient TypeCode → Type 0
  Keeps before after =
      (other : String) (info : InterfaceInfo TypeCode)
      → lookup other before.interface_cache ≡ some info
      → lookup other after.interface_cache ≡ some info

  described :
      (id repid : String) (info : InterfaceInfo TypeCode)
      → id ≡ repid
      → (r : Outcome (InterfaceInfo TypeCode) × IfrClient TypeCode)
      → (r.0 ≡ fetch_from_ifr repository id)
        × Faithful repository r.1
        × ((i : InterfaceInfo TypeCode) → r.0 ≡ ok i → lookup id r.1.interface_cache ≡ some i)
      → fetch_from_ifr repository repid ≡ ok info
      → lookup repid r.1.interface_cache ≡ some info
  described id repid info same r d f =
      rw (← same) (d.2 info (d.0 ∙ ap (fetch_from_ifr repository) same ∙ f))

  turn_lem :
      (id : Outcome String) (ifr : IfrClient TypeCode)
      → Faithful repository ifr
      → Faithful repository (turn id ifr).1
        × Keeps ifr (turn id ifr).1
        × ((repid : String) (info : InterfaceInfo TypeCode)
            → id ≡ ok repid
            → fetch_from_ifr repository repid ≡ ok info
            → lookup repid (turn id ifr).1.interface_cache ≡ some info)
  turn_lem (throw e) ifr v =
      rw (warned_state (throw e, ifr)) (v, λ other info h. h, λ repid info e f. cc)
  turn_lem (ok id) ifr v =
      let d = describe_interface_facts repository id ifr v in
      rw (warned_state (describe_interface repository id ifr)) (
        d.1,
        λ other info h. describe_interface-keeps id other info ifr h,
        λ repid info e f.
            described id repid info (ground (arith, e)) (describe_interface repository id ifr) d f,
      )

  preload_lem :
      (ids : List (Outcome String)) (ifr : IfrClient TypeCode)
      → Faithful repository ifr
      → Faithful repository (preload repository ids ifr).1
        × Keeps ifr (preload repository ids ifr).1
        × ((preload repository ids ifr).0 ≡ ok tt → Cached ids (preload repository ids ifr).1)
  unfolding preload
  preload_lem [] ifr v = (v, λ other info h. h, λ h. tt)
  preload_lem (id ∷ ids) ifr v =
      let t = turn_lem id ifr v in after (preload_lem ids) (turn id ifr) t.0 t.1 t.2
    where
      Head : IfrClient TypeCode → Type 0
      Head s =
          (repid : String) (info : InterfaceInfo TypeCode)
          → id ≡ ok repid
          → fetch_from_ifr repository repid ≡ ok info
          → lookup repid s.interface_cache ≡ some info

      after :
          ((s : IfrClient TypeCode)
            → Faithful repository s
            → Faithful repository (preload repository ids s).1
              × Keeps s (preload repository ids s).1
              × ((preload repository ids s).0 ≡ ok tt → Cached ids (preload repository ids s).1))
          → (r : Outcome (Unit {0}) × IfrClient TypeCode) → Faithful repository r.1
          → Keeps ifr r.1
          → Head r.1
          → let q = bind r (λ _. preload repository ids) in
            Faithful repository q.1 × Keeps ifr q.1 × (q.0 ≡ ok tt → Cached (id ∷ ids) q.1)
      after ih (throw e, s) f k c = (f, k, λ h. cc)
      after ih (ok u, s) f k c =
          let rest = ih s f in
          (
            rest.0,
            λ other info h. rest.1 other info (k other info h),
            λ h. (λ repid info e g. rest.1 repid info (c repid info e g), rest.2 h),
          )

  -- No CORBA exception is thrown.
  abbrev pub Tolerated : {A : Type 0} → Outcome A → Type 0
  Tolerated (ok a) = Unit {0}
  Tolerated (throw (runtime_error what)) = Unit {0}
  Tolerated (throw (invalid_argument what)) = Unit {0}
  Tolerated (throw (corba name)) = ⊥

  -- Neither the id nor the description of its interface.
  abbrev pub Readable : Outcome String → Type 0
  Readable (ok repid) = Tolerated (fetch_from_ifr repository repid)
  Readable (throw e) = Tolerated {A = String} (throw e)

  warned-Tolerated :
      (r : Outcome (InterfaceInfo TypeCode) × IfrClient TypeCode)
      → Tolerated r.0
      → (warned repository r).0 ≡ ok tt
  warned-Tolerated (ok info, ifr) t = refl
  warned-Tolerated (throw (runtime_error what), ifr) t = refl
  warned-Tolerated (throw (invalid_argument what), ifr) t = refl
  warned-Tolerated (throw (corba name), ifr) t = absurd t

  turn-Readable :
      (id : Outcome String) (ifr : IfrClient TypeCode)
      → Faithful repository ifr
      → Readable id
      → (turn id ifr).0 ≡ ok tt
  turn-Readable (throw (runtime_error what)) ifr v t = refl
  turn-Readable (throw (invalid_argument what)) ifr v t = refl
  turn-Readable (throw (corba name)) ifr v t = absurd t
  turn-Readable (ok id) ifr v t =
      let d = describe_interface_facts repository id ifr v in
      let q : Tolerated (describe_interface repository id ifr).0 = rw d.0 t in
      warned-Tolerated (describe_interface repository id ifr) q

  preload-Readable :
      (ids : List (Outcome String)) (ifr : IfrClient TypeCode)
      → Faithful repository ifr
      → All Readable ids
      → (preload repository ids ifr).0 ≡ ok tt
  unfolding preload
  preload-Readable [] ifr v h = refl
  preload-Readable (id ∷ ids) ifr v h =
      after (turn id ifr) (turn-Readable id ifr v h.0)
        (preload-Readable ids (turn id ifr).1 (turn_lem id ifr v).0 h.1)
    where
      after :
          (r : Outcome (Unit {0}) × IfrClient TypeCode)
          → r.0 ≡ ok tt
          → (preload repository ids r.1).0 ≡ ok tt
          → (bind r (λ _. preload repository ids)).0 ≡ ok tt
      after (throw e, s) q rest = cc
      after (ok u, s) q rest = rest

  -- From a cache that agrees with the repository, where the repository gives its contents and no
  -- id or description of them throws a CORBA exception, `preloadAll` returns, and each interface
  -- among the contents that the repository describes is cached as described.
  pub preload_all-Cached :
      (ids : List (Outcome String)) (ifr : IfrClient TypeCode)
      → Faithful repository ifr
      → repository.contents ≡ ok ids
      → All Readable ids
      → ((preload_all repository ifr).0 ≡ ok tt) × Cached ids (preload_all repository ifr).1
  unfolding preload_all
  preload_all-Cached ids ifr v h readable =
      let returns = preload-Readable ids ifr v readable in
      rw (preload_all, h) (returns, (preload_lem ids ifr v).2 returns)
