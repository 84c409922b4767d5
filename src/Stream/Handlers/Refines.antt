-- ===== src/Stream/Handlers/Refines.antt =====
-- The stream handlers of src/server/stream_server.cpp do to their clients what the abstract view allows.
use api_gateway_gtc.Base.{
  ℕ, ◌≡◌, ◌≢◌, refl, sym, ◌∙◌, ap, subst, fun_ext, String, Bool, true, false, Option, none, some,
  List, arith, inl, inr, Bool-cases, Option-cases, nat_eq,
}
use api_gateway_gtc.Registry.{Registry, Entry, add_entry, remove_entry, mark_inactive}
use api_gateway_gtc.Registry.View.{entry, entry-add_entry, entry-remove_entry, entry-mark_inactive}
use api_gateway_gtc.Stream.Handlers.{
  Phase, starting, waiting, finished, System, move, added, removed, Step, subscribe, refuse,
  unsubscribe, collect, write_done, write_failed, Reach,
}
use api_gateway_gtc.Stream.Handlers.Owners.{IsOwned}
use api_gateway_gtc.Stream.Handlers.Interleaved.{Reach-IsOwned}
use api_gateway_gtc.Stream.Handlers.Service.{
  Standing, outside, served, gone, put, Moves, joins, declined, leaves, lost, stays,
}

module _ {W : Type 0} where
  abbrev pub intact : Option (Entry W) → Bool
  intact none = false
  intact (some e) = e.active

  abbrev pub standing : Registry W → Phase → Standing
  standing r starting = outside
  standing r (waiting id) = served (intact (entry r id))
  standing r finished = gone

  -- Where the clients stand.
  abbrev pub view : System W → ℕ → Standing
  view s i = standing s.registry (s.phase i)

  standing_kept :
      (r q : Registry W) (phase : Phase)
      → ((id : ℕ) → phase ≡ waiting id → entry q id ≡ entry r id)
      → standing q phase ≡ standing r phase
  standing_kept r q starting h = refl
  standing_kept r q (waiting id) h = ap (λ o. served (intact o)) (h id refl)
  standing_kept r q finished h = refl

  moved :
      (r q : Registry W) (phase : ℕ → Phase) (i : ℕ) (next : Phase)
      → ((j id : ℕ) → i ≢ j → phase j ≡ waiting id → entry q id ≡ entry r id)
      → (λ (j : ℕ). standing q (move phase i next j))
        ≡ put (λ (j : ℕ). standing r (phase j)) i (standing q next)
  moved r q phase i next h = fun_ext (λ j. elim (Bool-cases (nat_eq i j)) [
    | inl here ↦ ground arith
    | inr there ↦
        let same : standing q (phase j) ≡ standing r (phase j) =
          standing_kept r q (phase j) (λ id p. h j id (ground arith) p) in
        ground arith
  ])

module _ {W : Type 0} (key : ℕ → String) (writer : ℕ → W) where
  subscribed :
      (s : System W) (i : ℕ)
      → IsOwned key writer s.registry s.phase
      → view (added key writer i s) ≡ put (view s) i (served true)
  unfolding added
  subscribed s i v =
      let a = add_entry (key i) (writer i) s.registry in
      let slot : (id : ℕ) → _ = λ id. entry-add_entry (key i) (writer i) s.registry id v.valid in
      moved s.registry a.0 s.phase i (waiting a.1)
        (λ j id ne p. let old = v.held j id p in ground (arith, slot id, old.1))
      ∙ ap (put (view s) i) (ground (arith, slot a.1))

  refused :
      (s : System W) (i : ℕ)
      → view (record s { phase = move s.phase i finished }) ≡ put (view s) i gone
  refused s i = moved s.registry s.registry s.phase i finished (λ j id ne p. refl)

  unsubscribed :
      (s : System W) (i id : ℕ)
      → IsOwned key writer s.registry s.phase
      → s.phase i ≡ waiting id
      → view (removed key writer i id s) ≡ put (view s) i gone
  unfolding removed
  unsubscribed s i id v here =
      moved s.registry (remove_entry id s.registry).0 s.phase i finished
        (λ j k ne p. ground (arith, entry-remove_entry id k s.registry v.valid, v.alone i j k))

  -- The system with a flag cleared.
  abbrev marked : System W → ℕ → List (ℕ × W) → System W
  marked s id rest = record s { registry = mark_inactive id s.registry; pending = rest }

  marked_absent :
      (s : System W) (id : ℕ) (rest : List (ℕ × W))
      → entry s.registry id ≡ none
      → view (marked s id rest) ≡ view s
  marked_absent s id rest absent = fun_ext (λ j.
      standing_kept s.registry (mark_inactive id s.registry) (s.phase j)
        (λ k p. ground (arith, entry-mark_inactive id k s.registry, absent)))

  marked_present :
      (s : System W) (i id : ℕ) (e : Entry W) (rest : List (ℕ × W))
      → IsOwned key writer s.registry s.phase
      → s.phase i ≡ waiting id
      → entry s.registry id ≡ some e
      → view (marked s id rest) ≡ put (view s) i (served false)
  marked_present s i id e rest v here present = fun_ext (λ j. elim (Bool-cases (nat_eq i j)) [
    | inl same ↦
        let at : s.phase j ≡ waiting id = ground arith in
        let slot = entry-mark_inactive id id s.registry in
        let cleared : entry (mark_inactive id s.registry) id ≡ some (record e { active = false }) =
          ground (arith, slot, present) in
        ap (standing (mark_inactive id s.registry)) at
        ∙ ap (λ o. served (intact o)) cleared
        ∙ ground arith
    | inr other ↦
        standing_kept s.registry (mark_inactive id s.registry) (s.phase j)
          (λ k p. ground (arith, entry-mark_inactive id k s.registry, v.alone i j k))
        ∙ ground arith
  ])

  lost_or_stays :
      (s : System W) (id : ℕ) (rest : List (ℕ × W))
      → IsOwned key writer s.registry s.phase
      → Moves (view s) (view (marked s id rest))
  lost_or_stays s id rest v = elim (Option-cases (entry s.registry id)) [
    | inl absent ↦ stays (marked_absent s id rest absent)
    | inr (e, present) ↦
        let (i, here) = v.owner id e present in
        lost i e.active (ap (standing s.registry) here ∙ ap (λ o. served (intact o)) present)
          (marked_present s i id e rest v here present)
  ]

  IsOwned-Moves :
      (s t : System W)
      → IsOwned key writer s.registry s.phase
      → Step key writer s t
      → Moves (view s) (view t)
  IsOwned-Moves s t v (subscribe i before room e) =
      joins i (ap (standing s.registry) before) (ap view e ∙ subscribed s i v)
  IsOwned-Moves s t v (refuse i before e) =
      declined i (ap (standing s.registry) before) (ap view e ∙ refused s i)
  IsOwned-Moves s t v (unsubscribe i id before e) =
      leaves i (intact (entry s.registry id)) (ap (standing s.registry) before)
        (ap view e ∙ unsubscribed s i id v before)
  IsOwned-Moves s t v (collect k none_left e) = stays (ap view e)
  IsOwned-Moves s t v (write_done id w rest p e) = stays (ap view e)
  IsOwned-Moves s t v (write_failed id w rest p e) =
      subst (λ u. Moves (view s) (view u)) (sym e) (lost_or_stays s id rest v)

  -- In every state that interleaved handlers and dispatches reach, with an id left at each
  -- subscription, a step changes the standing of one client at most: one outside is served or
  -- turned away, one in its call leaves or loses its stream, and all others stand as before.
  pub Step-Moves :
      {s t : System W} → Reach key writer s → Step key writer s t → Moves (view s) (view t)
  Step-Moves {s} {t} r step = IsOwned-Moves s t (Reach-IsOwned key writer r) step
