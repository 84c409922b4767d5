-- ===== src/Stream/Handlers/Service.antt =====
-- An abstract view of the stream handlers for their clients: no registry, no ids and no keys, only where
-- each client stands, and what one step may do to it.
use api_gateway_gtc.Base.{ℕ, ◌≡◌, Bool, true, false, nat_eq, if◌then◌else◌}

-- A client before it is subscribed, subscribed with its stream intact or not, and after its call.
pub data Standing : Type 0 where
  outside : Standing
  served : Bool → Standing
  gone : Standing

abbrev pub put : (ℕ → Standing) → ℕ → Standing → ℕ → Standing
put v i x j = if nat_eq i j then x else v j

-- A step concerns one client or none.
pub data Moves (v w : ℕ → Standing) : Type 0 where
  joins : (i : ℕ) → v i ≡ outside → w ≡ put v i (served true) → Moves v w
  declined : (i : ℕ) → v i ≡ outside → w ≡ put v i gone → Moves v w
  leaves : (i : ℕ) (intact : Bool) → v i ≡ served intact → w ≡ put v i gone → Moves v w
  lost : (i : ℕ) (intact : Bool) → v i ≡ served intact → w ≡ put v i (served false) → Moves v w
  stays : w ≡ v → Moves v w
