-- ===== src/Tests/Data.antt =====
-- A registry with three clients, and the surroundings of a propagator.
use api_gateway_gtc.Base.{
  ℕ, String, ◌≡◌, ◌==◌, eq_iff, true, false, not, none, some, List, [], ◌∷◌, nat_eq, append, arith,
  if◌then◌else◌,
}
use api_gateway_gtc.Base.Outcome.{ok}
use api_gateway_gtc.Registry.{Registry, Entry, Transport}
use api_gateway_gtc.Registry.Invariant.{IsValid}
use api_gateway_gtc.Naming.{NamingService}
use api_gateway_gtc.Propagator.{Propagator, Env}

abbrev pub client : String → ℕ → Entry ℕ
client key writer = record { key = key; writer = writer; active = true }

-- Writers 10 and 12 are for the alarms of MACS, 11 for those of ECS.
abbrev pub three_clients : Registry ℕ
three_clients = record {
  entries = (0, client "A:MACS" 10) ∷ (1, client "A:ECS" 11) ∷ (2, client "A:MACS" 12) ∷ [];
  next_id = 3;
}

pub three_clients-IsValid : IsValid three_clients
three_clients-IsValid = record {
  ascending = (omega arith, (omega arith, (omega arith, tt)));
  below = (omega arith, (omega arith, (omega arith, tt)));
  ranged = omega arith;
}

-- Two clients of two topics.
abbrev pub two_clients : String → String → Registry ℕ
two_clients key other = record {
  entries = (0, client key 10) ∷ (1, client other 11) ∷ [];
  next_id = 2;
}

pub two_clients-IsValid : (key other : String) → IsValid (two_clients key other)
two_clients-IsValid key other = record {
  ascending = (omega arith, (omega arith, tt));
  below = (omega arith, (omega arith, tt));
  ranged = omega arith;
}

-- The stream of writer 12 is broken; the state is what was sent.
abbrev pub one_broken : Transport ℕ ℕ (List (ℕ × ℕ))
one_broken = record {
  write = λ w x s. (not (nat_eq w 12), if nat_eq w 12 then s else append s ((w, x) ∷ []));
}

-- A name service that knows one object, 7, under every name.
abbrev pub one_object : NamingService ℕ ℕ
one_object = record {
  resolve = λ c n. ok (some 7);
  narrow = λ o. ok none;
  object_to_string = λ o. ok "IOR:7";
  list = λ c n. ok ([], none);
}

-- A manager that is found and takes every call.
abbrev pub willing : {Call : Type 0} → Env ℕ ℕ Call
willing = record {
  names = one_object;
  ns = record { root = some 0 };
  narrow = λ o. ok true;
  remote = λ c. ok tt;
}

abbrev pub unconnected : {Call : Type 0} → Registry ℕ → Propagator ℕ Call
unconnected r = record { registry = r; connected = false; accepted = [] }

abbrev pub connected : {Call : Type 0} → Registry ℕ → List Call → Propagator ℕ Call
connected r calls = record { registry = r; connected = true; accepted = calls }

-- Two texts that differ.
pub eq_absurd : (x y : String) → (x == y) ≡ false → x ≡ y → ⊥
eq_absurd x y h e = let hit : (x == y) ≡ true = (eq_iff x y).1 e in cc

-- A consumer's reference.
abbrev pub consumer : ℕ
consumer = 3
