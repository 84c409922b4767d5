-- ===== src/Tests/Naming.antt =====
-- Small name services: a tree, a context that cannot be listed, and a context within itself.
use api_gateway_gtc.Base.{
  c_str, ℕ, String, ◌≡◌, refl, ◌<◌, true, false, Option, none, some, List, [], ◌∷◌, arith, ◌==◌,
  if◌then◌else◌, nat_eq,
}
use api_gateway_gtc.Base.Outcome.{Outcome, ok, throw, corba}
use api_gateway_gtc.Naming.{
  NameComponent, Name, BindingIterator, NamingService, Binding, new_entry, process_binding,
  list_context, list, build_name, no_slash,
}
use api_gateway_gtc.Naming.BuildName.{join, build_name-join}
use api_gateway_gtc.Naming.Listing.{
  Forest, nil, cons, object, context, entries, Lists, lists, holds_cons, holds_nil, to_object,
  to_context, list-entries, depth_forest,
}
use api_gateway_gtc.Naming.Depth.{Ends, Child, list_context-Ends, list_context_cycle}
use api_gateway_gtc.Naming.Failures.{failed_context_twice}

abbrev component : String → NameComponent
component id = record { id = id; kind = "" }

abbrev monitors : NameComponent
monitors = component "MonitorManagers"

-- The root, 0, holds the context 1 and, by the iterator, an object; the context 1 holds another.
abbrev tree : Forest
tree =
    cons monitors (context "IOR:1" (cons (component "MM1") (object "IOR:2") nil))
      (cons (component "AlarmManager") (object "IOR:3") nil)

abbrev rest : BindingIterator
rest = record {
  replies =
      ok (true, record { binding_name = component "AlarmManager"; is_ncontext = false } ∷ []) ∷ [];
  destroy = ok tt;
}

abbrev listing : ℕ → Outcome (List Binding × Option BindingIterator)
listing c =
    if nat_eq c 0
    then ok (record { binding_name = monitors; is_ncontext = true } ∷ [], some rest)
    else ok (record { binding_name = component "MM1"; is_ncontext = false } ∷ [], none)

abbrev head_id : Name → String
head_id [] = ""
head_id (n ∷ ns) = n.id

abbrev found : Name → ℕ
found name = if head_id name == "MonitorManagers" then 1 else if head_id name == "MM1" then 2 else 3

abbrev ior_of : Option ℕ → String
ior_of none = ""
ior_of (some o) = if nat_eq o 1 then "IOR:1" else if nat_eq o 2 then "IOR:2" else "IOR:3"

abbrev context_of : Option ℕ → Option ℕ
context_of none = none
context_of (some o) = if nat_eq o 1 then some 1 else none

abbrev tree_service : NamingService ℕ ℕ
tree_service = record {
  resolve = λ c name. ok (some (if nat_eq c 0 then found name else 2));
  narrow = λ o. ok (context_of o);
  object_to_string = λ o. ok (ior_of o);
  list = λ c n. listing c;
}

inner : Lists tree_service 32 1 (cons (component "MM1") (object "IOR:2") nil)
inner =
    lists (record { binding_name = component "MM1"; is_ncontext = false } ∷ []) none [] refl refl
      refl (holds_cons (some 2) refl refl to_object holds_nil)

outer : Lists tree_service 32 0 tree
outer =
    lists (record { binding_name = monitors; is_ncontext = true } ∷ []) (some rest)
      (record { binding_name = component "AlarmManager"; is_ncontext = false } ∷ []) refl
      (([], refl, refl), refl) refl
      (holds_cons (some 1) refl refl (to_context 1 refl inner)
        (holds_cons (some 3) refl refl to_object holds_nil))

list-entries_example :
    list tree_service 2 (record { root = some 0 }) 32
    ≡ some (
      ok tt,
      record {
        name = "MonitorManagers";
        kind = "";
        path = "MonitorManagers";
        ior = "IOR:1";
        is_context = true;
      }
          ∷ record {
            name = "MM1";
            kind = "";
            path = "MonitorManagers/MM1";
            ior = "IOR:2";
            is_context = false;
          }
          ∷ record {
            name = "AlarmManager";
            kind = "";
            path = "AlarmManager";
            ior = "IOR:3";
            is_context = false;
          }
          ∷ [],
    )
unfolding entries new_entry depth_forest
list-entries_example = list-entries tree_service 32 0 tree 2 outer (omega arith)

-- Of the tree's contexts only the root has one in it.
abbrev rank : ℕ → ℕ
rank c = if nat_eq c 0 then 1 else 0

rank_falls : (c d : ℕ) → Child tree_service c d → rank d < rank c
rank_falls c d (b, obj, r, n) = ground arith

list_context-Ends_example : Ends (list_context tree_service 2 32 0 "" [])
list_context-Ends_example =
    list_context-Ends tree_service rank rank_falls 2 32 0 "" [] (omega arith)

-- Every context holds one context, under the name `loop`, which resolves to context 0.
abbrev loop : Binding
loop = record { binding_name = component "loop"; is_ncontext = true }

abbrev loop_service : NamingService ℕ ℕ
loop_service = record {
  resolve = λ c name. ok (some 0);
  narrow = λ o. ok (some 0);
  object_to_string = λ o. ok "IOR:0";
  list = λ c n. ok (loop ∷ [], none);
}

list_context_cycle_example : list_context loop_service 100 32 0 "" [] ≡ none
list_context_cycle_example =
    list_context_cycle loop_service 32 0 loop (some 0) "IOR:0" [] none refl refl refl refl refl 100
      "" []

-- The context 1 answers no `list`.
abbrev broken_service : NamingService ℕ ℕ
broken_service = record {
  resolve = λ c name. ok (some 1);
  narrow = λ o. ok (some 1);
  object_to_string = λ o. ok "IOR:1";
  list = λ c n. throw (corba "TRANSIENT");
}

failed_context_twice_example :
    process_binding broken_service (list_context broken_service 5 32) 0 loop "" []
    ≡ some (ok tt, new_entry loop "" "IOR:1" ∷ new_entry loop "" "IOR:1" ∷ [])
failed_context_twice_example =
    failed_context_twice broken_service 4 32 0 1 loop (some 1) "IOR:1" "TRANSIENT" "" [] refl refl
      refl refl refl

build_name-join_example :
    build_name "MonitorManagers/MM1" "object"
    ≡ ok (
        record { id = "MonitorManagers"; kind = "container" }
        ∷ record { id = "MM1"; kind = "object" }
        ∷ [])
unfolding join no_slash c_str
build_name-join_example =
    build_name-join "object" ("MonitorManagers" ∷ []) "MM1" ((refl, refl), ((refl, refl), tt))
