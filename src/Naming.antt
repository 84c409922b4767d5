-- ===== src/Naming.antt =====
-- src/corba/NamingService/ns_discover.cpp: the class `NsResolver`, and `NsEntry` of
-- src/corba/corba_types.h. The CosNaming service is a parameter: `Ctx` are its contexts, `Obj` the
-- object references.
mod Text
pub mod BuildName
pub mod Listing
pub mod Depth
pub mod Failures
use api_gateway_gtc.Base.{
  ℕ, zero, suc, String, ◌++◌, ◌≡◌, Bool, true, false, not, ◌&&◌, Option, none, some, List, [], ◌∷◌,
  append, c_str, ◌==◌, if◌then◌else◌,
}
use api_gateway_gtc.Base.Outcome.{
  Outcome, ok, throw, runtime_error, invalid_argument, corba, and_then,
}
unfoldable pub use Text.{pieces, segments, no_slash, is_nonempty}

-- `CosNaming::NameComponent`.
pub record NameComponent : Type 0 where
  pub id : String
  pub kind : String

abbrev pub Name : Type 0
Name = List NameComponent

-- `CosNaming::Binding`; the service lists each binding under a name of one component.
pub record Binding : Type 0 where
  pub binding_name : NameComponent
  pub is_ncontext : Bool

pub record NsEntry : Type 0 where
  pub name : String
  pub kind : String
  pub path : String
  pub ior : String
  pub is_context : Bool

-- What the code calls of an iterator over bindings: the replies of `next_n` in order, and how
-- `destroy` ends.
pub record BindingIterator : Type 0 where
  pub replies : List (Outcome (Bool × List Binding))
  pub destroy : Outcome (Unit {0})

-- What the code calls of the ORB and of the naming service. `list` gives the first bindings and,
-- if there are more, an iterator.
pub record NamingService (Ctx Obj : Type 0) : Type 0 where
  pub resolve : Ctx → Name → Outcome (Option Obj)
  pub narrow : Option Obj → Outcome (Option Ctx)
  pub object_to_string : Option Obj → Outcome String
  pub list : Ctx → ℕ → Outcome (List Binding × Option BindingIterator)

-- The resolver's state: its root context, nil before `connect`.
pub record NsResolver (Ctx : Type 0) : Type 0 where
  pub root : Option Ctx

-- The loop of `buildName`: the kind is `container` for all but the last component. The texts pass as
-- `const char*`.
unfoldable pub components : String → List String → Name
unfolding c_str
components leaf_kind [] = []
components leaf_kind (s ∷ []) = record { id = c_str s; kind = c_str leaf_kind } ∷ []
components leaf_kind (s ∷ t ∷ rest) =
    record { id = c_str s; kind = "container" } ∷ components leaf_kind (t ∷ rest)

-- The rest of `buildName`, on the segments.
unfoldable pub name_of : String → List String → Outcome Name
unfolding components
name_of leaf_kind [] = throw (invalid_argument "NsResolver: empty path")
name_of leaf_kind (s ∷ rest) = ok (components leaf_kind (s ∷ rest))

unfoldable pub build_name : String → String → Outcome Name
unfolding name_of
build_name path leaf_kind = name_of leaf_kind (segments path)

module _ {Ctx Obj : Type 0} where
  -- `NsResolver::connect`; its arguments are what `string_to_object` and `_narrow` give. A failed
  -- `_narrow` has already stored the nil reference.
  unfoldable pub connect :
      Outcome (Option Obj)
      → (Obj → Outcome (Option Ctx))
      → NsResolver Ctx
      → Outcome (Unit {0}) × NsResolver Ctx
  connect (throw e) narrow ns = (throw e, ns)
  connect (ok none) narrow ns = (throw (runtime_error "Could not resolve NameService"), ns)
  connect (ok (some obj)) narrow ns = elim (narrow obj) [
    | throw e ↦ (throw e, ns)
    | ok none ↦ (throw (runtime_error "Reference is not a NamingContext"), record { root = none })
    | ok (some context) ↦ (ok tt, record { root = some context })
  ]

-- The walk of `list`: the vector of entries, and `none` when the fuel is used up.
abbrev pub Walk : Type 0
Walk = List NsEntry → Option (Outcome (Unit {0}) × List NsEntry)

abbrev pub then_walk :
    Option (Outcome (Unit {0}) × List NsEntry) → Walk → Option (Outcome (Unit {0}) × List NsEntry)
then_walk none k = none
then_walk (some (ok u, entries)) k = k entries
then_walk (some (throw e, entries)) k = some (throw e, entries)

abbrev pub push : NsEntry → List NsEntry → List NsEntry
push entry entries = append entries (entry ∷ [])

unfoldable pub new_entry : Binding → String → String → NsEntry
new_entry binding prefix ior = record {
  name = binding.binding_name.id;
  kind = binding.binding_name.kind;
  path = if prefix == "" then binding.binding_name.id else prefix ++ "/" ++ binding.binding_name.id;
  ior = ior;
  is_context = binding.is_ncontext;
}

-- `catch (const CORBA::Exception&)` of `processBinding`: the entry is stored, once more if it was.
unfoldable pub handle :
    NsEntry
    → Option (Outcome (Unit {0}) × List NsEntry)
    → Option (Outcome (Unit {0}) × List NsEntry)
handle entry none = none
handle entry (some (ok u, entries)) = some (ok u, entries)
handle entry (some (throw (corba name), entries)) = some (ok tt, push entry entries)
handle entry (some (throw (runtime_error what), entries)) =
    some (throw (runtime_error what), entries)
handle entry (some (throw (invalid_argument what), entries)) =
    some (throw (invalid_argument what), entries)

module _ {Ctx Obj : Type 0} (service : NamingService Ctx Obj) where
  found : String → Option Obj → Outcome (Option Obj)
  found path none = throw (runtime_error ("NsResolver: path not found: " ++ path))
  found path (some obj) = ok (some obj)

  unfoldable pub resolve : NsResolver Ctx → String → String → Outcome (Option Obj)
  unfolding build_name found
  resolve ns path leaf_kind = elim ns.root [
    | none ↦ throw (runtime_error "NsResolver: not connected - call connect() first")
    | some root ↦
        and_then (build_name path leaf_kind)
          (λ name. and_then (service.resolve root name) (found path))
  ]

  -- The `if (entry.is_context)` of `processBinding`, on what `_narrow` gives; `walk` is the call of
  -- `listContext`.
  unfoldable pub descend : (Ctx → String → Walk) → NsEntry → Outcome (Option Ctx) → Walk
  descend walk entry (throw e) entries = some (throw e, entries)
  descend walk entry (ok none) entries = some (ok tt, entries)
  descend walk entry (ok (some sub_context)) entries = walk sub_context entry.path entries

  -- The `try` block after `resolve`, on what `object_to_string` gives.
  unfoldable pub store_entry :
      (Ctx → String → Walk) → Binding → String → Option Obj → Outcome String → Walk
  unfolding new_entry handle descend
  store_entry walk binding prefix obj (throw e) entries =
      handle (new_entry binding prefix "") (some (throw e, entries))
  store_entry walk binding prefix obj (ok ior) entries =
      let entry = new_entry binding prefix ior in
      handle entry (
        if entry.is_context
        then descend walk entry (service.narrow obj) (push entry entries)
        else some (ok tt, push entry entries))

  -- The `try` block of `processBinding`, on what `resolve` gives. The entry that the handler stores
  -- has the reference that was set by then.
  unfoldable pub resolve_entry :
      (Ctx → String → Walk) → Binding → String → Outcome (Option Obj) → Walk
  unfolding store_entry
  resolve_entry walk binding prefix (throw e) entries =
      handle (new_entry binding prefix "") (some (throw e, entries))
  resolve_entry walk binding prefix (ok obj) entries =
      store_entry walk binding prefix obj (service.object_to_string obj) entries

  unfoldable pub process_binding : (Ctx → String → Walk) → Ctx → Binding → String → Walk
  unfolding resolve_entry
  process_binding walk context binding prefix =
      resolve_entry walk binding prefix (service.resolve context (binding.binding_name ∷ []))

  -- A loop of `listContext` over the bindings.
  unfoldable pub process_all : (Ctx → String → Walk) → Ctx → List Binding → String → Walk
  process_all walk context [] prefix entries = some (ok tt, entries)
  process_all walk context (b ∷ bs) prefix entries =
      then_walk (process_binding walk context b prefix entries) (process_all walk context bs prefix)

  -- `while (bi->next_n(max_entries, more) && more->length() > 0)`, where the replies end with
  -- `false`, and `bi->destroy()` behind it.
  unfoldable pub process_more :
      (Ctx → String → Walk)
      → Ctx
      → List (Outcome (Bool × List Binding))
      → Outcome (Unit {0})
      → String
      → Walk
  unfolding process_all
  process_more walk context [] destroyed prefix entries = some (destroyed, entries)
  process_more walk context (throw e ∷ replies) destroyed prefix entries = some (throw e, entries)
  process_more walk context (ok (false, more) ∷ replies) destroyed prefix entries =
      some (destroyed, entries)
  process_more walk context (ok (true, []) ∷ replies) destroyed prefix entries =
      some (destroyed, entries)
  process_more walk context (ok (true, b ∷ more) ∷ replies) destroyed prefix entries =
      then_walk (process_all walk context (b ∷ more) prefix entries)
        (process_more walk context replies destroyed prefix)

  -- `if (!CORBA::is_nil(bi.in()))`.
  unfoldable pub process_rest : (Ctx → String → Walk) → Ctx → Option BindingIterator → String → Walk
  unfolding process_more
  process_rest walk context none prefix entries = some (ok tt, entries)
  process_rest walk context (some bi) prefix entries =
      process_more walk context bi.replies bi.destroy prefix entries

  -- The body of `listContext`, on what `list` gives.
  unfoldable pub list_bindings :
      (Ctx → String → Walk) → Ctx → Outcome (List Binding × Option BindingIterator) → String → Walk
  unfolding process_binding process_all process_rest
  list_bindings walk context (throw e) prefix entries = some (throw e, entries)
  list_bindings walk context (ok (bl, bi)) prefix entries =
      then_walk (process_all walk context bl prefix entries) (process_rest walk context bi prefix)

  -- `listContext`. The fuel bounds how deep the contexts are nested.
  unfoldable pub list_context : ℕ → ℕ → Ctx → String → Walk
  unfolding list_bindings
  list_context zero max_entries context prefix entries = none
  list_context (suc fuel) max_entries context prefix entries =
      list_bindings (list_context fuel max_entries) context (service.list context max_entries)
        prefix entries

  -- `list`; the caller that gives no argument asks for 32 entries at a time.
  unfoldable pub list : ℕ → NsResolver Ctx → ℕ → Option (Outcome (Unit {0}) × List NsEntry)
  unfolding list_context
  list fuel ns max_entries = elim ns.root [
    | none ↦ some (ok tt, [])
    | some root ↦ list_context fuel max_entries root "" []
  ]
