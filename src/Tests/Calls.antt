-- ===== src/Tests/Calls.antt =====
-- Calls of components through the whole of `Invoke`.
use api_gateway_gtc.Base.{
  ℕ, ◌<◌, ◌^◌, ◌≡◌, refl, Option, none, some, [], ◌∷◌, ltb, if◌then◌else◌, arith,
}
use api_gateway_gtc.Base.Outcome.{Exn, ok, throw, status_ok}
use api_gateway_gtc.Naming.{resolve, segments}
use api_gateway_gtc.Ifr.{OperationInfo, fetch_from_ifr}
use api_gateway_gtc.Ifr.Interfaces.{Faithful}
use api_gateway_gtc.Dii.{is_in}
use api_gateway_gtc.Adapter.Any.{Corba, TcKind, tk_long, AnyValue, type_long, long_val}
use api_gateway_gtc.Adapter.Bounds.{CorbaRanges}
use api_gateway_gtc.Unary.{Runtime, converted, find_operation, invoke}
use api_gateway_gtc.Unary.Escapes.{Escapes, invoke-Escapes}
use api_gateway_gtc.Unary.Responses.{Returns, invoke-Returns}
use api_gateway_gtc.Unary.Generic.{invoke_answered}
use api_gateway_gtc.Tests.Orb.{Held, long, orb}
use api_gateway_gtc.Tests.Corba.{runtime, idle, repository, no_cache-Faithful, pump, in_a}

abbrev four : AnyValue ℕ ℕ
four = record { type_kind = type_long; value = long_val 4 }

invoke-Escapes_example :
    let r = invoke runtime "MACS" "get" (four ∷ []) idle in
    Faithful repository r.1.ifr × ((e : Exn) → r.0 ≡ throw e → Escapes runtime "MACS" e)
invoke-Escapes_example = invoke-Escapes runtime "MACS" "get" (four ∷ []) idle no_cache-Faithful

-- Extractions that give no number out of range.
abbrev below : ℕ → Option ℕ → Option ℕ
below m none = none
below m (some n) = if ltb n m then some n else none

abbrev ranged : Corba Held TcKind ℕ ℕ
ranged = record orb {
  to_long = λ any. below (2 ^ 32) (orb.to_long any);
  to_short = λ any. below (2 ^ 16) (orb.to_short any);
  to_octet = λ any. below (2 ^ 8) (orb.to_octet any);
  to_time_value = λ any. below (2 ^ 64) (orb.to_time_value any);
}

below-lt : (m n : ℕ) (o : Option ℕ) → below m o ≡ some n → n < m
below-lt m n none h = cc
below-lt m n (some k) h = ground arith

ranged-CorbaRanges : CorbaRanges ranged
ranged-CorbaRanges = record {
  long_range = λ any n h. below-lt (2 ^ 32) n (orb.to_long any) h;
  short_range = λ any n h. below-lt (2 ^ 16) n (orb.to_short any) h;
  octet_range = λ any n h. below-lt (2 ^ 8) n (orb.to_octet any) h;
  time_range = λ any n h. below-lt (2 ^ 64) n (orb.to_time_value any) h;
  cdr_range = λ any. tt;
}

abbrev ranged_runtime : Runtime ℕ ℕ Held TcKind ℕ ℕ ℕ ℕ
ranged_runtime = record runtime { corba = ranged }

invoke-Returns_example : Returns (invoke ranged_runtime "MACS" "configure" (four ∷ []) idle).0
invoke-Returns_example =
    invoke-Returns ranged_runtime ranged-CorbaRanges "MACS" "configure" (four ∷ []) idle

-- The same component, which is no device.
abbrev no_device : Runtime ℕ ℕ Held TcKind ℕ ℕ ℕ ℕ
no_device = record runtime { narrow_device = λ o. ok none }

abbrev get_operation : OperationInfo TcKind
get_operation = record { name = "get"; return_tc = tk_long; params = in_a ∷ [] }

invoke_answered_example :
    let r = invoke no_device "MACS" "get" (four ∷ []) idle in
    (r.0
      ≡ ok
          (status_ok, record { return_value = some (converted no_device (long 4)); out_args = [] }))
    × (r.1.calls ≡ [])
unfolding resolve segments fetch_from_ifr find_operation is_in
invoke_answered_example =
    invoke_answered no_device "MACS" "get" (four ∷ []) idle 7 "IDL:GTC/Pump:1.0" pump get_operation
      (long 4) refl refl refl refl no_cache-Faithful refl (refl, tt) refl refl
