-- ===== src/Ifr.antt =====
-- src/corba/InterfaceRepository/ifr_connect.cpp: the class `IfrClient`, and the descriptions of
-- src/corba/corba_types.h. The interface repository is a parameter; `TypeCode` are its type codes.
pub mod Cache
pub mod Types
pub mod Interfaces
pub mod Preload
use api_gateway_gtc.Base.{
  c_str, String, ◌++◌, Bool, true, false, Option, none, some, List, [], ◌∷◌, map, ◌==◌,
  if◌then◌else◌,
}
use api_gateway_gtc.Base.Outcome.{
  Outcome, ok, throw, runtime_error, invalid_argument, corba, and_then, Exec, bind, pure, raise,
  lift, ◌>>=◌, ◌>>◌,
}
unfoldable pub use Cache.{lookup, insert, emplace}

-- `ParamInfo::Mode`.
pub data Mode : Type 0 where
  in_mode out_mode inout_mode unspecified_mode : Mode

pub record ParamInfo (TypeCode : Type 0) : Type 0 where
  pub name : String
  pub tc : TypeCode
  pub mode : Mode

pub record OperationInfo (TypeCode : Type 0) : Type 0 where
  pub name : String
  pub return_tc : TypeCode
  pub params : List (ParamInfo TypeCode)

pub record InterfaceInfo (TypeCode : Type 0) : Type 0 where
  pub repid : String
  pub operations : List (OperationInfo TypeCode)

-- `CORBA::ParameterMode`, and the descriptions that the repository gives.
pub data ParameterMode : Type 0 where
  param_in param_out param_inout : ParameterMode

pub record ParameterDescription (TypeCode : Type 0) : Type 0 where
  pub name : String
  pub type : TypeCode
  pub mode : ParameterMode

pub record OperationDescription (TypeCode : Type 0) : Type 0 where
  pub name : String
  pub result : TypeCode
  pub parameters : List (ParameterDescription TypeCode)

-- What the code calls of `CORBA::Repository` and of the objects in it: `lookup_id`, `_narrow` and
-- `describe_interface`, whose operations alone are read, and `contents` with the id of each.
pub record Repository (Contained InterfaceDef TypeCode : Type 0) : Type 0 where
  pub lookup_id : String → Outcome (Option Contained)
  pub narrow : Contained → Outcome (Option InterfaceDef)
  pub describe_interface : InterfaceDef → Outcome (List (OperationDescription TypeCode))
  pub contents : Outcome (List (Outcome String))

-- The two caches; the maps are lists of pairs in which the first with a key counts.
pub record IfrClient (TypeCode : Type 0) : Type 0 where
  pub interface_cache : List (String × InterfaceInfo TypeCode)
  pub tc_cache : List (String × TypeCode)

-- `IfrClient::connect`, on what `string_to_object` and `_narrow` give. The member is set before it
-- is tested.
unfoldable pub connect :
    {Obj Repo : Type 0}
    → Outcome (Option Obj)
    → (Obj → Outcome (Option Repo))
    → Option Repo
    → Outcome (Unit {0}) × Option Repo
connect (throw e) narrow repository = (throw e, repository)
connect (ok none) narrow repository =
    (throw (runtime_error "IfrClient: string_to_object returned nil"), repository)
connect (ok (some obj)) narrow repository = elim (narrow obj) [
  | throw e ↦ (throw e, repository)
  | ok none ↦ (throw (runtime_error "IfrClient: reference is not a CORBA::Repository"), none)
  | ok (some repo) ↦ (ok tt, some repo)
]

-- The `switch` of `toParamInfo`.
unfoldable pub mode_of : ParameterMode → Mode
mode_of param_out = out_mode
mode_of param_inout = inout_mode
mode_of param_in = in_mode

module _ {TypeCode : Type 0} where
  unfoldable pub to_param_info : ParameterDescription TypeCode → ParamInfo TypeCode
  unfolding mode_of
  to_param_info p = record { name = p.name; tc = p.type; mode = mode_of p.mode }

  -- The loop's body in `getInterface`.
  unfoldable pub operation_info : OperationDescription TypeCode → OperationInfo TypeCode
  unfolding to_param_info
  operation_info op = record {
    name = op.name;
    return_tc = op.result;
    params = map to_param_info op.parameters;
  }

  unfoldable pub get_interface :
      String → List (OperationDescription TypeCode) → InterfaceInfo TypeCode
  unfolding operation_info
  get_interface repid operations = record {
    repid = repid;
    operations = map operation_info operations;
  }

unfoldable pub cache_key : String → String → String
cache_key repid method = repid ++ "#" ++ method

module _ {TypeCode : Type 0} where
  -- The loop of `populateCache`: `tc_cache_[cacheKey(info.repid, op.name)] = op.return_tc`.
  unfoldable pub populate :
      String → List (OperationInfo TypeCode) → List (String × TypeCode) → List (String × TypeCode)
  unfolding cache_key insert
  populate repid [] cache = cache
  populate repid (op ∷ operations) cache =
      populate repid operations (insert (cache_key repid op.name) op.return_tc cache)

  unfoldable pub populate_cache : InterfaceInfo TypeCode → IfrClient TypeCode → IfrClient TypeCode
  unfolding populate
  populate_cache info ifr = record ifr {
    tc_cache = populate info.repid info.operations ifr.tc_cache;
  }

  -- `populateCache(info); interface_cache_.emplace(repid, info)`.
  unfoldable pub remember :
      String → InterfaceInfo TypeCode → IfrClient TypeCode → IfrClient TypeCode
  unfolding populate_cache emplace
  remember repid info ifr =
      let filled = populate_cache info ifr in
      record filled { interface_cache = emplace repid info filled.interface_cache }

  -- The last lookup of `returnTypeCode`.
  unfoldable pub cached_type : String → IfrClient TypeCode → Outcome TypeCode × IfrClient TypeCode
  unfolding lookup
  cached_type key ifr = elim (lookup key ifr.tc_cache) [
    | none ↦ (throw (runtime_error ("IfrClient: method not found in interface: " ++ key)), ifr)
    | some tc ↦ (ok tc, ifr)
  ]

module _ {Contained InterfaceDef TypeCode : Type 0}
    (repository : Repository Contained InterfaceDef TypeCode) where
  narrowed : String → Outcome (Option InterfaceDef) → Outcome (InterfaceInfo TypeCode)
  unfolding get_interface
  narrowed repid (throw e) = throw e
  narrowed repid (ok none) = throw (runtime_error "The Interface found was not a InterfaceDef")
  narrowed repid (ok (some def)) =
      and_then (repository.describe_interface def)
        (λ operations. ok (get_interface repid operations))

  contained : String → Outcome (Option Contained) → Outcome (InterfaceInfo TypeCode)
  unfolding narrowed
  contained repid (throw e) = throw e
  contained repid (ok none) = throw (runtime_error ("ID not found in the IFR: " ++ repid))
  contained repid (ok (some c)) = narrowed repid (repository.narrow c)

  unfoldable pub fetch_from_ifr : String → Outcome (InterfaceInfo TypeCode)
  unfolding contained c_str
  fetch_from_ifr repid = contained repid (repository.lookup_id (c_str repid))

  -- `describeInterface`; the lock is held throughout.
  unfoldable pub describe_interface : String → Exec (IfrClient TypeCode) (InterfaceInfo TypeCode)
  unfolding lookup fetch_from_ifr remember
  describe_interface repid ifr = elim (lookup repid ifr.interface_cache) [
    | some info ↦ (ok info, ifr)
    | none ↦ bind (fetch_from_ifr repid, ifr) (λ info s. (ok info, remember repid info s))
  ]

  unfoldable pub return_type_code : String → String → Exec (IfrClient TypeCode) TypeCode
  unfolding lookup fetch_from_ifr remember cached_type cache_key
  return_type_code repid method ifr = elim (lookup (cache_key repid method) ifr.tc_cache) [
    | some tc ↦ (ok tc, ifr)
    | none ↦
        bind (fetch_from_ifr repid, ifr)
          (λ info s. cached_type (cache_key repid method) (remember repid info s))
  ]

  -- `catch (const std::exception&)` of `preloadAll`: a `CORBA::Exception` passes.
  abbrev pub warned :
      Outcome (InterfaceInfo TypeCode) × IfrClient TypeCode
      → Outcome (Unit {0}) × IfrClient TypeCode
  warned (ok info, ifr) = (ok tt, ifr)
  warned (throw (runtime_error what), ifr) = (ok tt, ifr)
  warned (throw (invalid_argument what), ifr) = (ok tt, ifr)
  warned (throw (corba name), ifr) = (throw (corba name), ifr)

  -- The loop of `preloadAll`, over what `id()` gives for each of the contents.
  unfoldable pub preload : List (Outcome String) → Exec (IfrClient TypeCode) (Unit {0})
  unfolding describe_interface
  preload [] ifr = (ok tt, ifr)
  preload (id ∷ ids) ifr = bind (warned (bind (id, ifr) describe_interface)) (λ _. preload ids)

  unfoldable pub preload_all : Exec (IfrClient TypeCode) (Unit {0})
  unfolding preload
  preload_all ifr = bind (repository.contents, ifr) preload
