-- ===== src/Registry.antt =====
-- src/SubscriptionRegistry/subscription_registry.hpp: the class template `SubscriptionRegistry<T>`.
-- `W` is the type of the writer pointers `grpc::ServerWriter<T>*`. Each method holds the mutex for
-- its whole body, but `dispatch`, which gives it up while it writes to a client.
mod Map
pub mod Keys
pub mod Invariant
pub mod View
pub mod Dispatch
pub mod Table
pub mod Refines
pub mod Gaps
pub mod Canonical
pub mod Unordered
use api_gateway_gtc.Base.{
  ℕ, ◌+◌, ◌%◌, ◌^◌, String, ◌≡◌, Bool, true, false, not, ◌&&◌, Option, none, some, List, [], ◌∷◌,
  ◌==◌, if◌then◌else◌,
}
unfoldable pub use Map.{find, assign, erase}
pub use Map.{
  find-assign, find-erase, find_above, find_below, Ascending, Ascending-mono, AllBelow,
  assign-Ascending, erase-Ascending, assign-AllBelow, erase-AllBelow, AllBelow-mono,
}

pub record Entry (W : Type 0) : Type 0 where
  pub key : String
  pub writer : W
  pub active : Bool

-- `entries_`, a `std::map`, is the list of its pairs in the order of the ids.
pub record Registry (W : Type 0) : Type 0 where
  pub entries : List (ℕ × Entry W)
  pub next_id : ℕ

module _ {W : Type 0} where
  -- The constructor.
  unfoldable pub empty : Registry W
  empty = record { entries = []; next_id = 0 }

  -- The loops of `removeEntry` and `hasActiveWriters`: some active entry has the key.
  unfoldable pub any_active : String → List (ℕ × Entry W) → Bool
  any_active key [] = false
  any_active key ((id, e) ∷ rest) = if e.active && e.key == key then true else any_active key rest

  -- `next_id_++` on a `uint64_t`.
  unfoldable pub add_entry : String → W → Registry W → Registry W × ℕ
  add_entry key writer r =
      let id = r.next_id in
      let entry : Entry W = record { key = key; writer = writer; active = true } in
      (record { entries = assign id entry r.entries; next_id = (id + 1) % 2 ^ 64 }, id)

  unfoldable pub remove_entry : ℕ → Registry W → Registry W × Bool
  remove_entry id r = elim (find id r.entries) [
    | none ↦ (r, false)
    | some e ↦
        let rest = erase id r.entries in (record r { entries = rest }, not (any_active e.key rest))
  ]

  unfoldable pub is_active : ℕ → Registry W → Bool
  is_active id r = elim (find id r.entries) [ none ↦ false | some e ↦ e.active ]

  unfoldable pub has_active_writers : String → Registry W → Bool
  unfolding any_active
  has_active_writers key r = any_active key r.entries

  -- The first block of `dispatch`: the active entries with the key, in the order of the ids.
  unfoldable pub targets : String → List (ℕ × Entry W) → List (ℕ × W)
  targets key [] = []
  targets key ((id, e) ∷ rest) =
      if e.active && e.key == key then (id, e.writer) ∷ targets key rest else targets key rest

  -- What `dispatch` does to an entry whose write failed, if it is still there.
  unfoldable pub mark_inactive : ℕ → Registry W → Registry W
  mark_inactive id r = elim (find id r.entries) [
    | none ↦ r
    | some e ↦ record r { entries = assign id (record e { active = false }) r.entries }
  ]

-- `Write` of a client's stream, on the state `S` of the connections: whether it went well, and the
-- state after it.
pub record Transport (W T S : Type 0) : Type 0 where
  pub write : W → T → S → Bool × S

module _ {W T S : Type 0} (t : Transport W T S) where
  -- The second loop of `dispatch`, with no other thread between two writes.
  unfoldable pub deliver : List (ℕ × W) → T → Registry W → S → Bool → (Registry W × S) × Bool
  unfolding mark_inactive
  deliver [] response r s all_ok = ((r, s), all_ok)
  deliver ((id, w) ∷ rest) response r s all_ok =
      let sent = t.write w response s in
      deliver rest response (if sent.0 then r else mark_inactive id r) sent.1
        (if sent.0 then all_ok else false)

  unfoldable pub dispatch : String → T → Registry W × S → (Registry W × S) × Bool
  unfolding deliver targets
  dispatch key response (r, s) = deliver (targets key r.entries) response r s true
