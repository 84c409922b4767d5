-- ===== src/Base/Outcome.antt =====
-- What a C++ function does when it ends: it returns, or it throws. An action of `Exec S` also
-- changes a state; what was written before a throw stays written.
use mathlib.Core.Bool.{Bool, true, false}
use Prim.Native.String.{String}

-- The exceptions that the code throws or catches. `corba` is any `CORBA::Exception`, with the text
-- that its `_name()` or `_info()` gives; it is not a `std::exception`.
pub data Exn : Type 0 where
  runtime_error : String → Exn
  invalid_argument : String → Exn
  corba : String → Exn

pub data Outcome {ℓ} (A : Type ℓ) : Type ℓ where
  ok : A → Outcome A
  throw : Exn → Outcome A

-- `catch (const CORBA::Exception&)` takes these, and no other.
abbrev pub is_corba : Exn → Bool
is_corba (corba name) = true
is_corba (runtime_error what) = false
is_corba (invalid_argument what) = false

abbrev pub and_then {ℓ κ} : {A : Type ℓ} {B : Type κ} → Outcome A → (A → Outcome B) → Outcome B
and_then (ok a) f = f a
and_then (throw e) f = throw e

abbrev pub Exec : Type 0 → Type 0 → Type 0
Exec S A = S → Outcome A × S

abbrev pub bind : {S A B : Type 0} → Outcome A × S → (A → S → Outcome B × S) → Outcome B × S
bind (ok a, s) f = f a s
bind (throw e, s) f = (throw e, s)

infixl 5 ◌>>=◌ ◌>>◌
abbrev pub ◌>>=◌ : {S A B : Type 0} → Exec S A → (A → Exec S B) → Exec S B
◌>>=◌ m f s = bind (m s) f

abbrev pub ◌>>◌ : {S B : Type 0} → Exec S (Unit {0}) → Exec S B → Exec S B
m >> k = m >>= λ _. k

abbrev pub pure : {S A : Type 0} → A → Exec S A
pure a s = (ok a, s)

abbrev pub raise : {S A : Type 0} → Exn → Exec S A
raise e s = (throw e, s)

abbrev pub lift : {S A : Type 0} → Outcome A → Exec S A
lift o s = (o, s)

abbrev pub gets : {S A : Type 0} → (S → A) → Exec S A
gets f s = (ok (f s), s)

-- `try { m } catch (CORBA::Exception&) { }`
abbrev pub swallow_corba : {S : Type 0} → Outcome (Unit {0}) × S → Outcome (Unit {0}) × S
swallow_corba (ok a, s) = (ok a, s)
swallow_corba (throw (corba name), s) = (ok tt, s)
swallow_corba (throw (runtime_error what), s) = (throw (runtime_error what), s)
swallow_corba (throw (invalid_argument what), s) = (throw (invalid_argument what), s)

-- `grpc::Status`, with the codes that the code gives and their messages.
pub data Status : Type 0 where
  status_ok : Status
  not_found : String → Status
  internal : String → Status

-- `catch (const std::exception& e) { return Status(INTERNAL, e.what()); }`.
abbrev pub caught_std : {R : Type 0} → R → Outcome (Status × R) → Outcome (Status × R)
caught_std r (ok a) = ok a
caught_std r (throw (runtime_error what)) = ok (internal what, r)
caught_std r (throw (invalid_argument what)) = ok (internal what, r)
caught_std r (throw (corba name)) = throw (corba name)

-- `catch (const CORBA::Exception& ex)`, with its name, before that.
abbrev pub caught_all : {R : Type 0} → R → Outcome (Status × R) → Outcome (Status × R)
caught_all r (ok a) = ok a
caught_all r (throw (runtime_error what)) = ok (internal what, r)
caught_all r (throw (invalid_argument what)) = ok (internal what, r)
caught_all r (throw (corba name)) = ok (internal name, r)
