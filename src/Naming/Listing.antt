-- ===== src/Naming/Listing.antt =====
-- What `NsResolver::list` returns: the tree of the name service, each context before its contents.
use mathlib.Core.List.{append_assoc, append-nil}
use Prim.Native.Nat.{max}
use api_gateway_gtc.Base.{
  ℕ, suc, ◌<◌, ◌≤◌, String, ◌≡◌, refl, sym, ap, ◌∙◌, Bool, true, false, Option, none, some, List,
  [], ◌∷◌, arith, if◌then◌else◌, append, fun_ext, ◌-◌, ◌++◌, ◌==◌,
}
use api_gateway_gtc.Base.Outcome.{Outcome, ok, throw}
use api_gateway_gtc.Naming.{
  NameComponent, NamingService, NsEntry, Binding, Walk, new_entry, push, handle, descend,
  process_binding, process_all, process_more, process_rest, BindingIterator, store_entry,
  resolve_entry, list_bindings, list_context, list, then_walk,
}

-- A tree of names. An object has its reference as text; a context has one too, and what is bound
-- in it.
mutual
  pub data Node : Type 0 where
    object : String → Node
    context : String → Forest → Node

  pub data Forest : Type 0 where
    nil : Forest
    cons : NameComponent → Node → Forest → Forest

abbrev pub is_context : Node → Bool
is_context (object ior) = false
is_context (context ior f) = true

abbrev pub reference : Node → String
reference (object ior) = ior
reference (context ior f) = ior

abbrev pub binding : NameComponent → Node → Binding
binding n t = record { binding_name = n; is_ncontext = is_context t }

-- The bindings of a context.
abbrev pub bindings : Forest → List Binding
bindings nil = []
bindings (cons n t f) = binding n t ∷ bindings f

-- The path of what is bound in a context.
abbrev pub below : String → String → String
below prefix id = if prefix == "" then id else prefix ++ "/" ++ id

-- All the entries below, in preorder.
unfoldable mutual
  pub entries_below : Node → String → List NsEntry
  entries_below (object ior) path = []
  entries_below (context ior f) path = entries f path

  pub entries : Forest → String → List NsEntry
  entries nil prefix = []
  entries (cons n t f) prefix =
      record {
        name = n.id;
        kind = n.kind;
        path = below prefix n.id;
        ior = reference t;
        is_context = is_context t;
      }
      ∷ append (entries_below t (below prefix n.id)) (entries f prefix)

-- How deep contexts are nested.
unfoldable mutual
  pub depth : Node → ℕ
  depth (object ior) = 0
  depth (context ior f) = suc (depth_forest f)

  pub depth_forest : Forest → ℕ
  depth_forest nil = 0
  depth_forest (cons n t f) = max (depth t) (depth_forest f)

-- The bindings of the replies, each of which holds some.
abbrev pub Replies : List (Outcome (Bool × List Binding)) → List Binding → Type 0
Replies [] bs = (bs ≡ [])
Replies (throw e ∷ rs) bs = ⊥
Replies (ok (false, more) ∷ rs) bs = ⊥
Replies (ok (true, []) ∷ rs) bs = ⊥
Replies (ok (true, b ∷ more) ∷ rs) bs =
    (later : List Binding) × (bs ≡ append (b ∷ more) later) × Replies rs later

-- The same of the iterator, if there is one; it can be destroyed.
abbrev pub Iterates : Option BindingIterator → List Binding → Type 0
Iterates none bs = (bs ≡ [])
Iterates (some bi) bs = Replies bi.replies bs × (bi.destroy ≡ ok tt)

then_walk_assoc :
    (a : Option (Outcome (Unit {0}) × List NsEntry)) (k l : Walk)
    → then_walk (then_walk a k) l ≡ then_walk a (λ es. then_walk (k es) l)
then_walk_assoc none k l = refl
then_walk_assoc (some (throw e, es)) k l = refl
then_walk_assoc (some (ok u, es)) k l = refl

regroup :
    (entry : NsEntry) (es xs ys : List NsEntry)
    → append (append (push entry es) xs) ys ≡ append es (entry ∷ append xs ys)
regroup entry es xs ys = simp append_assoc

module _ {Ctx Obj : Type 0} (service : NamingService Ctx Obj) where
  process_all-append :
      (walk : Ctx → String → Walk) (c : Ctx) (xs ys : List Binding) (prefix : String)
      (es : List NsEntry)
      → process_all service walk c (append xs ys) prefix es
        ≡ then_walk (process_all service walk c xs prefix es) (process_all service walk c ys prefix)
  unfolding process_all
  process_all-append walk c [] ys prefix es = refl
  process_all-append walk c (x ∷ xs) ys prefix es =
      ap (then_walk (process_binding service walk c x prefix es))
        (fun_ext λ es'. process_all-append walk c xs ys prefix es')
      ∙ sym (
          then_walk_assoc (process_binding service walk c x prefix es)
            (process_all service walk c xs prefix) (process_all service walk c ys prefix))

  process_more_lem :
      (walk : Ctx → String → Walk) (c : Ctx) (rs : List (Outcome (Bool × List Binding)))
      (bs : List Binding) (prefix : String) (es : List NsEntry)
      → Replies rs bs
      → process_more service walk c rs (ok tt) prefix es ≡ process_all service walk c bs prefix es
  unfolding process_more process_all
  process_more_lem walk c [] bs prefix es h = rw h
  process_more_lem walk c (throw e ∷ rs) bs prefix es h = absurd h
  process_more_lem walk c (ok (false, more) ∷ rs) bs prefix es h = absurd h
  process_more_lem walk c (ok (true, []) ∷ rs) bs prefix es h = absurd h
  process_more_lem walk c (ok (true, b ∷ more) ∷ rs) bs prefix es (later, e, r) =
      ap (then_walk (process_all service walk c (b ∷ more) prefix es))
        (fun_ext λ es'. process_more_lem walk c rs later prefix es' r)
      ∙ sym (process_all-append walk c (b ∷ more) later prefix es)
      ∙ ap (λ bs'. process_all service walk c bs' prefix es) (sym e)

  process_rest_lem :
      (walk : Ctx → String → Walk) (c : Ctx) (bi : Option BindingIterator) (bs : List Binding)
      (prefix : String) (es : List NsEntry)
      → Iterates bi bs
      → process_rest service walk c bi prefix es ≡ process_all service walk c bs prefix es
  unfolding process_rest process_all
  process_rest_lem walk c none bs prefix es h = rw h refl
  process_rest_lem walk c (some bi) bs prefix es (h, d) =
      ap (λ o. process_more service walk c bi.replies o prefix es) d
      ∙ process_more_lem walk c bi.replies bs prefix es h

  module _ (max_entries : ℕ) where
    -- The service answers for the names in a context as the forest says, and no call fails.
    mutual
      pub data Holds : Ctx → Forest → Type 0 where
        holds_nil : {c : Ctx} → Holds c nil
        holds_cons :
            {c : Ctx} {n : NameComponent} {t : Node} {f : Forest}
            → (obj : Option Obj) → service.resolve c (n ∷ []) ≡ ok obj
            → service.object_to_string obj ≡ ok (reference t)
            → Refers obj t
            → Holds c f
            → Holds c (cons n t f)

      pub data Refers : Option Obj → Node → Type 0 where
        to_object : {obj : Option Obj} {ior : String} → Refers obj (object ior)
        to_context :
            {obj : Option Obj} {ior : String} {f : Forest}
            → (d : Ctx) → service.narrow obj ≡ ok (some d)
            → Lists d f
            → Refers obj (context ior f)

      -- `list` gives the bindings of the forest, some at once and the others by the iterator.
      pub data Lists : Ctx → Forest → Type 0 where
        lists :
            {d : Ctx} {f : Forest}
            → (bl : List Binding) → (bi : Option BindingIterator) → (later : List Binding)
            → service.list d max_entries ≡ ok (bl, bi)
            → Iterates bi later
            → bindings f ≡ append bl later
            → Holds d f
            → Lists d f

    mutual
      unfolding new_entry process_all process_binding entries list_context list_bindings
          resolve_entry store_entry descend handle depth

      process_all-entries :
          (fuel : ℕ) {c : Ctx} {f : Forest} (prefix : String) (es : List NsEntry)
          → Holds c f
          → depth_forest f ≤ fuel
          → process_all service (list_context service fuel max_entries) c (bindings f) prefix es
            ≡ some (ok tt, append es (entries f prefix))
      process_all-entries fuel prefix es holds_nil h = rw append-nil
      process_all-entries fuel {c} {f = cons n t f} prefix es (holds_cons obj p q r hs) h =
          let walk = list_context service fuel max_entries in
          let entry = new_entry (binding n t) prefix (reference t) in
          let walked = descend-entries fuel entry (push entry es) r (omega arith) in
          let es' = append (push entry es) (entries_below t entry.path) in
          let stored : process_binding service walk c (binding n t) prefix es ≡ some (ok tt, es') =
            rw (process_binding, p, resolve_entry, q) (ap (handle entry) walked) in
          rw stored (
            process_all-entries fuel prefix es' hs (omega arith)
            ∙ ap (λ xs. some (ok tt, xs))
                (regroup entry es (entries_below t entry.path) (entries f prefix)))

      list_context-entries :
          (fuel : ℕ) {d : Ctx} {f : Forest} (prefix : String) (es : List NsEntry)
          → Lists d f
          → depth_forest f ≤ fuel
          → list_context service (suc fuel) max_entries d prefix es
            ≡ some (ok tt, append es (entries f prefix))
      list_context-entries fuel {d} {f} prefix es (lists bl bi later l r e hs) h =
          let walk = list_context service fuel max_entries in
          rw (l, list_bindings)
            (ap (then_walk (process_all service walk d bl prefix es))
                (fun_ext λ es'. process_rest_lem walk d bi later prefix es' r)
              ∙ sym (process_all-append walk d bl later prefix es)
              ∙ ap (λ bs. process_all service walk d bs prefix es) (sym e)
              ∙ process_all-entries fuel prefix es hs h)

      descend-entries :
          (fuel : ℕ) {obj : Option Obj} {t : Node} (entry : NsEntry) (es : List NsEntry)
          → Refers obj t
          → depth t ≤ fuel
          → (if is_context t
              then descend service
                  (list_context service fuel max_entries)
                  entry
                  (service.narrow obj)
                  es
              else some (ok tt, es))
            ≡ some (ok tt, append es (entries_below t entry.path))
      descend-entries fuel entry es to_object h = rw append-nil
      descend-entries fuel entry es (to_context d n l) h =
          let e : fuel ≡ suc (fuel - 1) = omega arith in
          rw (n, e) (list_context-entries (fuel - 1) entry.path es l (omega arith))

    -- Where the name service is a finite tree and no call fails, `list` returns one entry for each
    -- binding, each context before its contents, however the iterator cuts the bindings; fuel
    -- above the depth, to which contexts side by side add nothing, is enough.
    pub list-entries :
        (root : Ctx) (f : Forest) (fuel : ℕ)
        → Lists root f
        → depth_forest f < fuel
        → list service fuel (record { root = some root }) max_entries ≡ some (ok tt, entries f "")
    unfolding list
    list-entries root f fuel l h =
        let e : fuel ≡ suc (fuel - 1) = omega arith in
        rw e (list_context-entries (fuel - 1) "" [] l (omega arith))
