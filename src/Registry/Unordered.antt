-- ===== src/Registry/Unordered.antt =====
-- `removeEntry` of the handlers that leave, and the second block of `dispatch`, in whatever order their
-- threads take the mutex of src/SubscriptionRegistry/subscription_registry.hpp.
use api_gateway_gtc.Base.{
  ℕ, ◌≡◌, refl, ap, ◌∙◌, Option, none, List, [], ◌∷◌, arith, nat_eq, if◌then◌else◌,
}
use api_gateway_gtc.Registry.{Registry, Entry, remove_entry, mark_inactive}
use api_gateway_gtc.Registry.Invariant.{IsValid, remove_entry-IsValid, mark_inactive-IsValid}
use api_gateway_gtc.Registry.View.{entry, deactivate, entry-remove_entry, entry-mark_inactive}
use api_gateway_gtc.Registry.Canonical.{entry-injective}
use mathlib.Core.List.{Perm, Permᴰ}
use mathlib.Core.Logic.{∥∥₁_elim}
use text.Mathlib.TextEquality.{IsScalar-prop}

-- What a thread does while it holds the mutex: take an entry out, or clear the flag of one whose
-- write failed.
pub data Change : Type 0 where
  leaves : ℕ → Change
  fails : ℕ → Change

module _ {W : Type 0} where
  unfoldable pub change : Change → Registry W → Registry W
  change (leaves id) r = (remove_entry id r).0
  change (fails id) r = mark_inactive id r

  unfoldable pub change_all : List Change → Registry W → Registry W
  unfolding change
  change_all [] r = r
  change_all (c ∷ cs) r = change_all cs (change c r)

  change-IsValid : (c : Change) (r : Registry W) → IsValid r → IsValid (change c r)
  unfolding change
  change-IsValid (leaves id) r v = remove_entry-IsValid id r v
  change-IsValid (fails id) r v = mark_inactive-IsValid id r v

  -- What a change does to the entry of an id.
  abbrev effect : Change → ℕ → Option (Entry W) → Option (Entry W)
  effect (leaves id) j o = if nat_eq id j then none else o
  effect (fails id) j o = if nat_eq id j then deactivate o else o

  entry-change :
      (c : Change) (j : ℕ) (r : Registry W)
      → IsValid r
      → entry (change c r) j ≡ effect c j (entry r j)
  unfolding change
  entry-change (leaves id) j r v = entry-remove_entry id j r v
  entry-change (fails id) j r v = entry-mark_inactive id j r

  effect_comm :
      (c d : Change) (j : ℕ) (o : Option (Entry W))
      → effect c j (effect d j o) ≡ effect d j (effect c j o)
  effect_comm (leaves i) (leaves k) j o = ground arith
  effect_comm (leaves i) (fails k) j o = ground arith
  effect_comm (fails i) (leaves k) j o = ground arith
  effect_comm (fails i) (fails k) j o = ground arith

  next_id-change : (c : Change) (r : Registry W) → (change c r).next_id ≡ r.next_id
  unfolding change remove_entry mark_inactive
  next_id-change (leaves id) r = ground arith
  next_id-change (fails id) r = ground arith

  entry-two_changes :
      (c d : Change) (j : ℕ) (r : Registry W)
      → IsValid r
      → entry (change c (change d r)) j ≡ effect c j (effect d j (entry r j))
  entry-two_changes c d j r v =
      entry-change c j (change d r) (change-IsValid d r v) ∙ ap (effect c j) (entry-change d j r v)

  -- Two changes commute.
  change_comm :
      (c d : Change) (r : Registry W) → IsValid r → change c (change d r) ≡ change d (change c r)
  change_comm c d r v =
      entry-injective (change c (change d r)) (change d (change c r))
        (change-IsValid c (change d r) (change-IsValid d r v))
        (change-IsValid d (change c r) (change-IsValid c r v))
        (λ j.
          cc (
            entry-two_changes c d j r v,
            entry-two_changes d c j r v,
            effect_comm c d j (entry r j),
          ))
        (cc (
          next_id-change c (change d r),
          next_id-change d r,
          next_id-change d (change c r),
          next_id-change c r,
        ))

  change_all_perm :
      {cs ds : List Change} (r : Registry W)
      → IsValid r
      → Permᴰ cs ds
      → change_all cs r ≡ change_all ds r
  unfolding change_all
  change_all_perm r v Permᴰ.nil = refl
  change_all_perm r v (Permᴰ.cons {a} {b} {l₁} {l₂} e p) =
      change_all_perm (change a r) (change-IsValid a r v) p ∙ ap (λ c. change_all l₂ (change c r)) e
  change_all_perm r v (Permᴰ.swap {a} {b} {a'} {b'} {l} e f) =
      ap (change_all l) (change_comm b a r v ∙ cc)
  change_all_perm r v (Permᴰ.trans p q) = change_all_perm r v p ∙ change_all_perm r v q

  Registry-IsSet : IsSet W → IsSet (Registry W)
  Registry-IsSet s = hlevel IsScalar-prop

  -- From a well-formed registry, with writers that form a set, the same removals and cleared flags
  -- leave the same registry in whatever order they are made.
  pub change_all-Perm :
      (cs ds : List Change) (r : Registry W)
      → IsSet W
      → IsValid r
      → Perm cs ds
      → change_all cs r ≡ change_all ds r
  change_all-Perm cs ds r s v p = ∥∥₁_elim p (Registry-IsSet s _ _) (λ q. change_all_perm r v q)
