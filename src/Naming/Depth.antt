-- ===== src/Naming/Depth.antt =====
-- How deep `NsResolver::list` goes: it ends on every finite tree of contexts, and never on a cycle.
use api_gateway_gtc.Base.{
  ℕ, zero, suc, ◌<◌, String, ◌≡◌, refl, Bool, true, false, Option, none, some, List, [], ◌∷◌, arith,
  if◌then◌else◌,
}
use api_gateway_gtc.Base.Outcome.{Outcome, ok, throw, runtime_error, invalid_argument, corba}
use api_gateway_gtc.Naming.{
  NamingService, NsEntry, Binding, Walk, new_entry, push, handle, descend, store_entry,
  resolve_entry, list_bindings, process_binding, process_all, process_more, process_rest,
  BindingIterator, list_context, then_walk,
}

abbrev Answer : Type 0
Answer = Option (Outcome (Unit {0}) × List NsEntry)

abbrev pub Ends : Answer → Type 0
Ends a = (r : Outcome (Unit {0}) × List NsEntry) × (a ≡ some r)

handle-Ends : (entry : NsEntry) (a : Answer) → Ends a → Ends (handle entry a)
unfolding handle
handle-Ends entry none e = absurd (ground arith)
handle-Ends entry (some (ok u, es)) e = (_, refl)
handle-Ends entry (some (throw (corba n), es)) e = (_, refl)
handle-Ends entry (some (throw (runtime_error n), es)) e = (_, refl)
handle-Ends entry (some (throw (invalid_argument n), es)) e = (_, refl)

then_walk-Ends :
    (a : Answer) (k : Walk) → Ends a → ((es : List NsEntry) → Ends (k es)) → Ends (then_walk a k)
then_walk-Ends none k e h = absurd (ground arith)
then_walk-Ends (some (ok tt, es)) k e h = h es
then_walk-Ends (some (throw x, es)) k e h = (_, refl)

module _ {Ctx Obj : Type 0} (service : NamingService Ctx Obj) where
  -- `d` is one of the contexts bound in `c`.
  abbrev pub Child : Ctx → Ctx → Type 0
  Child c d =
      (b : Binding) × (obj : Option Obj) × (service.resolve c (b.binding_name ∷ []) ≡ ok obj)
      × (service.narrow obj ≡ ok (some d))

  module _ (walk : Ctx → String → Walk) (c : Ctx)
      (ends : (d : Ctx) (path : String) (es : List NsEntry)
        → Child c d
        → Ends (walk d path es)) where
    store_entry-Ends :
        (b : Binding) (prefix : String) (obj : Option Obj) (s : Outcome String) (es : List NsEntry)
        → service.resolve c (b.binding_name ∷ []) ≡ ok obj
        → Ends (store_entry service walk b prefix obj s es)
    unfolding store_entry
    store_entry-Ends b prefix obj (throw e) es p =
        handle-Ends (new_entry b prefix "") (some (throw e, es)) (_, refl)
    store_entry-Ends b prefix obj (ok ior) es p =
        handle-Ends (new_entry b prefix ior)
          (if b.is_ncontext
            then descend service walk (new_entry b prefix ior) (service.narrow obj)
                (push (new_entry b prefix ior) es)
            else some (ok tt, push (new_entry b prefix ior) es))
          (flag b.is_ncontext (service.narrow obj) refl)
      where
        flag :
            (is_context : Bool) (o : Outcome (Option Ctx))
            → service.narrow obj ≡ o
            → Ends (
                if is_context
                then descend service walk
                    (new_entry b prefix ior)
                    o
                    (push (new_entry b prefix ior) es)
                else some (ok tt, push (new_entry b prefix ior) es))
        flag false o q = (_, refl)
        flag true (throw e) q = (_, refl)
        flag true (ok none) q = (_, refl)
        flag true (ok (some d)) q =
            ends d (new_entry b prefix ior).path (push (new_entry b prefix ior) es) (b, obj, p, q)

    resolve_entry-Ends :
        (b : Binding) (prefix : String) (o : Outcome (Option Obj)) (es : List NsEntry)
        → service.resolve c (b.binding_name ∷ []) ≡ o
        → Ends (resolve_entry service walk b prefix o es)
    unfolding resolve_entry
    resolve_entry-Ends b prefix (throw e) es p =
        handle-Ends (new_entry b prefix "") (some (throw e, es)) (_, refl)
    resolve_entry-Ends b prefix (ok obj) es p =
        store_entry-Ends b prefix obj (service.object_to_string obj) es p

    process_all-Ends :
        (bs : List Binding) (prefix : String) (es : List NsEntry)
        → Ends (process_all service walk c bs prefix es)
    unfolding process_all process_binding
    process_all-Ends [] prefix es = (_, refl)
    process_all-Ends (b ∷ bs) prefix es =
        then_walk-Ends
          (resolve_entry service walk b prefix (service.resolve c (b.binding_name ∷ [])) es)
          (process_all service walk c bs prefix)
          (resolve_entry-Ends b prefix (service.resolve c (b.binding_name ∷ [])) es refl)
          (process_all-Ends bs prefix)

    process_more-Ends :
        (replies : List (Outcome (Bool × List Binding))) (d : Outcome (Unit {0})) (prefix : String)
        (es : List NsEntry)
        → Ends (process_more service walk c replies d prefix es)
    unfolding process_more
    process_more-Ends [] d prefix es = (_, refl)
    process_more-Ends (throw e ∷ replies) d prefix es = (_, refl)
    process_more-Ends (ok (false, more) ∷ replies) d prefix es = (_, refl)
    process_more-Ends (ok (true, []) ∷ replies) d prefix es = (_, refl)
    process_more-Ends (ok (true, b ∷ more) ∷ replies) d prefix es =
        then_walk-Ends (process_all service walk c (b ∷ more) prefix es)
          (process_more service walk c replies d prefix) (process_all-Ends (b ∷ more) prefix es)
          (process_more-Ends replies d prefix)

    process_rest-Ends :
        (bi : Option BindingIterator) (prefix : String) (es : List NsEntry)
        → Ends (process_rest service walk c bi prefix es)
    unfolding process_rest
    process_rest-Ends none prefix es = (_, refl)
    process_rest-Ends (some bi) prefix es = process_more-Ends bi.replies bi.destroy prefix es

    list_bindings-Ends :
        (o : Outcome (List Binding × Option BindingIterator)) (prefix : String) (es : List NsEntry)
        → Ends (list_bindings service walk c o prefix es)
    unfolding list_bindings
    list_bindings-Ends (throw e) prefix es = (_, refl)
    list_bindings-Ends (ok (bl, bi)) prefix es =
        then_walk-Ends (process_all service walk c bl prefix es)
          (process_rest service walk c bi prefix) (process_all-Ends bl prefix es)
          (process_rest-Ends bi prefix)

  -- Where the contexts have a rank that falls from a context to those bound in it, `listContext`
  -- ends with fuel above the rank, whatever fails on the way.
  pub list_context-Ends :
      (rank : Ctx → ℕ)
      → ((c d : Ctx) → Child c d → rank d < rank c)
      → (fuel max_entries : ℕ) (c : Ctx) (prefix : String) (es : List NsEntry) → rank c < fuel
      → Ends (list_context service fuel max_entries c prefix es)
  unfolding list_context
  list_context-Ends rank falls zero max_entries c prefix es h = absurd (omega arith)
  list_context-Ends rank falls (suc fuel) max_entries c prefix es h =
      list_bindings-Ends (list_context service fuel max_entries) c
        (λ d path es' child.
          let lt = falls c d child in
          list_context-Ends rank falls fuel max_entries d path es' (omega arith))
        (service.list c max_entries) prefix es

  -- A context whose first binding is a context that resolves to itself is walked for ever:
  -- `listContext` ends with no amount of fuel.
  pub list_context_cycle :
      (max_entries : ℕ) (c : Ctx) (b : Binding) (obj : Option Obj) (ior : String)
      (rest : List Binding) (bi : Option BindingIterator)
      → service.list c max_entries ≡ ok (b ∷ rest, bi)
      → b.is_ncontext ≡ true
      → service.resolve c (b.binding_name ∷ []) ≡ ok obj
      → service.object_to_string obj ≡ ok ior
      → service.narrow obj ≡ ok (some c)
      → (fuel : ℕ) (prefix : String) (es : List NsEntry)
      → list_context service fuel max_entries c prefix es ≡ none
  unfolding list_context process_all list_bindings process_binding resolve_entry store_entry descend
      new_entry handle
  list_context_cycle max_entries c b obj ior rest bi l k r o n zero prefix es = refl
  list_context_cycle max_entries c b obj ior rest bi l k r o n (suc fuel) prefix es =
      let entry = new_entry b prefix ior in
      ground (
        arith,
        list_context_cycle max_entries c b obj ior rest bi l k r o n fuel entry.path
            (push entry es),
      )
