-- ===== src/Registry/Gaps.antt =====
-- `SubscriptionRegistry::dispatch` writes to the clients with the mutex given up: the threads that
-- serve other clients change the registry in between.
use api_gateway_gtc.Base.{
  ℕ, suc, String, ◌≡◌, refl, Bool, true, false, ◌&&◌, none, some, List, [], ◌∷◌, arith,
  if◌then◌else◌,
}
use api_gateway_gtc.Registry.{Registry, Transport, mark_inactive, deliver, dispatch, targets, find}
use api_gateway_gtc.Registry.Invariant.{IsValid, after_write-IsValid}
use api_gateway_gtc.Registry.View.{entry, Serves, entry-mark_inactive}
use api_gateway_gtc.Registry.Dispatch.{targets_iff, failed, all_written, is_empty}

module _ {W T S : Type 0} (t : Transport W T S) where
  -- The second loop of `dispatch`. `gap n` is what the other threads do to the registry between the
  -- collection of the targets, or the last time that this thread held the mutex, and the moment
  -- when the write with number `n` has returned.
  unfoldable pub deliver_among :
      (ℕ → Registry W → Registry W)
      → ℕ
      → List (ℕ × W)
      → T
      → Registry W
      → S
      → Bool
      → (Registry W × S) × Bool
  unfolding mark_inactive
  deliver_among gap n [] response r s all_ok = ((r, s), all_ok)
  deliver_among gap n ((id, w) ∷ rest) response r s all_ok =
      let sent = t.write w response s in
      deliver_among gap (suc n) rest response
        (if sent.0 then gap n r else mark_inactive id (gap n r)) sent.1
        (if sent.0 then all_ok else false)

  unfoldable pub dispatch_among :
      (ℕ → Registry W → Registry W) → String → T → Registry W × S → (Registry W × S) × Bool
  unfolding deliver_among targets
  dispatch_among gap key response (r, s) =
      deliver_among gap 0 (targets key r.entries) response r s true

  deliver_among-deliver :
      (n : ℕ) (ts : List (ℕ × W)) (x : T) (r : Registry W) (s : S) (b : Bool)
      → deliver_among (λ n r. r) n ts x r s b ≡ deliver t ts x r s b
  unfolding deliver_among deliver
  deliver_among-deliver n [] x r s b = refl
  deliver_among-deliver n ((id, w) ∷ ts) x r s b =
      deliver_among-deliver (suc n) ts x (if (t.write w x s).0 then r else mark_inactive id r)
        (t.write w x s).1 (if (t.write w x s).0 then b else false)

  -- With no other thread, it is `dispatch`.
  pub dispatch_among-dispatch :
      (key : String) (x : T) (r : Registry W) (s : S)
      → dispatch_among (λ n r. r) key x (r, s) ≡ dispatch t key x (r, s)
  unfolding dispatch_among dispatch
  dispatch_among-dispatch key x r s = deliver_among-deliver 0 (targets key r.entries) x r s true

  deliver_among_writes :
      (gap : ℕ → Registry W → Registry W) (n : ℕ) (ts : List (ℕ × W)) (x : T) (r : Registry W)
      (s : S) (b : Bool)
      → ((deliver_among gap n ts x r s b).0.1 ≡ all_written t ts x s)
        × ((deliver_among gap n ts x r s b).1 ≡ (b && is_empty (failed t ts x s)))
  unfolding deliver_among all_written failed
  deliver_among_writes gap n [] x r s true = (refl, refl)
  deliver_among_writes gap n [] x r s false = (refl, refl)
  deliver_among_writes gap n ((id, w) ∷ ts) x r s b = ground (
    arith,
    deliver_among_writes gap (suc n) ts x
        (if (t.write w x s).0 then gap n r else mark_inactive id (gap n r)) (t.write w x s).1
        (if (t.write w x s).0 then b else false),
  )

  -- What the other threads keep, and what a cleared flag keeps, holds at the end.
  deliver_among_keeps :
      (P : Registry W → Type 0) (gap : ℕ → Registry W → Registry W)
      → ((n : ℕ) (r : Registry W) → P r → P (gap n r))
      → ((id : ℕ) (r : Registry W) → P r → P (mark_inactive id r))
      → (n : ℕ) (ts : List (ℕ × W)) (x : T) (r : Registry W) (s : S) (b : Bool) → P r
      → P (deliver_among gap n ts x r s b).0.0
  unfolding deliver_among
  deliver_among_keeps P gap keep mark n [] x r s b p = p
  deliver_among_keeps P gap keep mark n ((id, w) ∷ ts) x r s b p =
      deliver_among_keeps P gap keep mark (suc n) ts x
        (if (t.write w x s).0 then gap n r else mark_inactive id (gap n r)) (t.write w x s).1
        (if (t.write w x s).0 then b else false) (sent (t.write w x s).0)
    where
      sent : (b : Bool) → P (if b then gap n r else mark_inactive id (gap n r))
      sent true = keep n r p
      sent false = mark id (gap n r) (keep n r p)

  absent-mark_inactive :
      (j id : ℕ) (r : Registry W) → entry r j ≡ none → entry (mark_inactive id r) j ≡ none
  absent-mark_inactive j id r h = ground (arith, entry-mark_inactive id j r)

  -- If the other threads keep a registry well formed, so does `dispatch` among them.
  pub dispatch_among-IsValid :
      (gap : ℕ → Registry W → Registry W) (key : String) (x : T) (r : Registry W) (s : S)
      → ((n : ℕ) (q : Registry W) → IsValid q → IsValid (gap n q))
      → IsValid r
      → IsValid (dispatch_among gap key x (r, s)).0.0
  unfolding dispatch_among
  dispatch_among-IsValid gap key x r s keep v =
      deliver_among_keeps IsValid gap keep (λ id q h. after_write-IsValid false id q h) 0
        (targets key r.entries) x r s true v

  -- An entry that is gone by the first write stays away.
  absent_after :
      (gap : ℕ → Registry W → Registry W) (ts : List (ℕ × W)) (x : T) (r : Registry W) (s : S)
      (id : ℕ) {w : W}
      → find id ts ≡ some w
      → entry (gap 0 r) id ≡ none
      → ((n : ℕ) (q : Registry W) → entry q id ≡ none → entry (gap n q) id ≡ none)
      → entry (deliver_among gap 0 ts x r s true).0.0 id ≡ none
  unfolding deliver_among find
  absent_after gap [] x r s id h gone keep = cc
  absent_after gap ((j, w) ∷ ts) x r s id h gone keep =
      deliver_among_keeps (λ q. entry q id ≡ none) gap keep (absent-mark_inactive id) 1 ts x
        (if (t.write w x s).0 then gap 0 r else mark_inactive j (gap 0 r)) (t.write w x s).1
        (if (t.write w x s).0 then true else false) (sent (t.write w x s).0)
    where
      sent : (b : Bool) → entry (if b then gap 0 r else mark_inactive j (gap 0 r)) id ≡ none
      sent true = gone
      sent false = absent-mark_inactive id j (gap 0 r) gone

  -- If other threads remove a collected client of a well-formed registry before the first write of
  -- `dispatch` has returned, and its entry does not come back, `dispatch` still writes to its
  -- writer as to all that it has collected, its result is as if nothing had been removed, and the
  -- entry stays away.
  pub removed_still_written :
      (gap : ℕ → Registry W → Registry W) (key : String) (x : T) (r : Registry W) (s : S) (id : ℕ)
      (e : Serves key id r.entries)
      → IsValid r
      → entry (gap 0 r) id ≡ none
      → ((n : ℕ) (q : Registry W) → entry q id ≡ none → entry (gap n q) id ≡ none)
      → let after = dispatch_among gap key x (r, s) in
        (find id (targets key r.entries) ≡ some e.0.writer)
        × (after.0.1 ≡ all_written t (targets key r.entries) x s)
        × (after.1 ≡ is_empty (failed t (targets key r.entries) x s))
        × (entry after.0.0 id ≡ none)
  unfolding dispatch_among
  removed_still_written gap key x r s id e v gone keep =
      let target = (targets_iff key id e.0.writer r v).1 (e, refl) in
      let written = deliver_among_writes gap 0 (targets key r.entries) x r s true in
      (
        target,
        written.0,
        written.1,
        absent_after gap (targets key r.entries) x r s id target gone keep,
      )
