-- ===== src/Tests/Adapter.antt =====
-- The adapters' theorems at concrete values and events.
use api_gateway_gtc.Base.{ℕ, String, ◌≡◌, refl, some, [], ◌∷◌, arith, inr}
use api_gateway_gtc.Adapter.Any.{tk_short, AnyValue, type_short, short_val, from_corba, to_corba}
use api_gateway_gtc.Adapter.Any.RoundTrip.{
  from_corba-to_corba, to_corba-from_corba, a_short, inserted,
}
use api_gateway_gtc.Adapter.Events.{Event, State, Severity, PropertyChange}
use api_gateway_gtc.Adapter.Monitor.{MmList, short_arrays2d, short_arrays1d, from_multi_type_list}
use api_gateway_gtc.Adapter.Monitor.Blocks.{MessageInRange}
use api_gateway_gtc.Adapter.Monitor.Ranges.{from_multi_type_list-MessageInRange}
use api_gateway_gtc.Adapter.Monitor.Restore.{restore, restore-from_multi_type_list}
use api_gateway_gtc.Tests.Orb.{short, orb, orb-CorbaLaws}

-- -5 as an `int32_t`.
abbrev minus_five : AnyValue ℕ ℕ
minus_five = record { type_kind = type_short; value = short_val 4294967291 }

from_corba-to_corba_example :
    from_corba orb (to_corba orb minus_five) (some (orb.type (to_corba orb minus_five)))
    ≡ minus_five
from_corba-to_corba_example =
    from_corba-to_corba orb orb-CorbaLaws minus_five (inr (omega arith, omega arith))

-- -5 as a `CORBA::Short`.
to_corba-from_corba_example :
    to_corba orb (from_corba orb (short 65531) (some tk_short)) ≡ short 65531
unfolding inserted
to_corba-from_corba_example =
    to_corba-from_corba orb orb-CorbaLaws (short 65531) tk_short
      (a_short 65531 (omega arith) refl refl)

abbrev alarm : String → Event
alarm name = record {
  name = name;
  gcs_component = "MACS";
  new_state = State.active_nacked;
  importance = Severity.level2;
  description = "";
  time_stamp = record { usec = 7 };
  id = 1;
}

abbrev change : PropertyChange
change = record { gcs_component = "MACS"; property_name = "az"; time_stamp = record { usec = 7 } }

abbrev samples : MmList ℕ ℕ
samples = short_arrays2d (
    record {
      time_stamp = record { usec = 7 };
      value = record { dimension = record { height = 1; width = 2 }; contents = 3 ∷ 65535 ∷ [] };
    }
    ∷ [])

restore-from_multi_type_list_example :
    restore (from_multi_type_list samples)
    ≡ some (
        short_arrays1d (
          record {
            time_stamp = record { usec = 7 };
            value = record {
              dimension = record { height = 1; width = 2 };
              contents = 3 ∷ 65535 ∷ [];
            };
          }
          ∷ []))
restore-from_multi_type_list_example =
    restore-from_multi_type_list samples
      ((((omega arith), (omega arith)), ((omega arith), ((omega arith), tt))), tt)

-- The shorts -1 and 3, in an array of one row and two columns.
abbrev minus_one : MmList ℕ ℕ
minus_one = short_arrays2d (
    record {
      time_stamp = record { usec = 7 };
      value = record { dimension = record { height = 1; width = 2 }; contents = 0xffff ∷ 3 ∷ [] };
    }
    ∷ [])

from_multi_type_list-MessageInRange_example :
    MessageInRange minus_one (from_multi_type_list minus_one)
from_multi_type_list-MessageInRange_example =
    from_multi_type_list-MessageInRange minus_one
      ((omega arith, ((omega arith, omega arith), (omega arith, (omega arith, tt)))), tt)
