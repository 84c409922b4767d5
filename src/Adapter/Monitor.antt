-- ===== src/Adapter/Monitor.antt =====
-- src/adapter/monitor_adapter.cpp: the events of the monitor manager and their lists of samples, as
-- the messages of server/proto/stream.proto and adapter.proto.
pub mod Restore
pub mod Samples
pub mod Blocks
pub mod Ranges
use api_gateway_gtc.Base.{ℕ, ◌%◌, ◌^◌, String, List, [], ◌∷◌, map}
use api_gateway_gtc.Adapter.{widen_short}
use api_gateway_gtc.Adapter.Events.{TimeValue}

-- `DGT::Dimension_t`, and an array of the `DGT` module.
pub record Dimension : Type 0 where
  pub height : ℕ
  pub width : ℕ

pub record DgtArray (V : Type 0) : Type 0 where
  pub dimension : Dimension
  pub contents : List V

-- A sample of the `MM` module: a value and its time.
pub record MmSample (V : Type 0) : Type 0 where
  pub time_stamp : TimeValue
  pub value : V

-- `MM::MultiTypeList`, a union: one constructor for each value of the discriminator.
pub data MmList (Double Float : Type 0) : Type 0 where
  doubles : List (MmSample Double) → MmList Double Float
  floats : List (MmSample Float) → MmList Double Float
  longs : List (MmSample ℕ) → MmList Double Float
  shorts : List (MmSample ℕ) → MmList Double Float
  octets : List (MmSample ℕ) → MmList Double Float
  double_arrays1d double_arrays2d : List (MmSample (DgtArray Double)) → MmList Double Float
  float_arrays1d float_arrays2d : List (MmSample (DgtArray Float)) → MmList Double Float
  long_arrays1d long_arrays2d : List (MmSample (DgtArray ℕ)) → MmList Double Float
  short_arrays1d short_arrays2d : List (MmSample (DgtArray ℕ)) → MmList Double Float
  octet_arrays1d octet_arrays2d : List (MmSample (DgtArray ℕ)) → MmList Double Float
  unknown_list : ℕ → MmList Double Float

-- The messages `Sample` and `SampleArray` with their `oneof`.
pub data SampleValue (Double Float : Type 0) : Type 0 where
  double_val : Double → SampleValue Double Float
  float_val : Float → SampleValue Double Float
  long_val : ℕ → SampleValue Double Float
  short_val : ℕ → SampleValue Double Float
  octet_val : ℕ → SampleValue Double Float

pub record Sample (Double Float : Type 0) : Type 0 where
  pub time_stamp : ℕ
  pub value : SampleValue Double Float

-- `DoubleArray`, `FloatArray`, `LongArray` and `ShortArray`.
pub record ProtoArray (V : Type 0) : Type 0 where
  pub rows : ℕ
  pub cols : ℕ
  pub contents : List V

pub data ArrayValue (Double Float : Type 0) : Type 0 where
  double_array : ProtoArray Double → ArrayValue Double Float
  float_array : ProtoArray Float → ArrayValue Double Float
  long_array : ProtoArray ℕ → ArrayValue Double Float
  short_array : ProtoArray ℕ → ArrayValue Double Float
  octet_array : List ℕ → ArrayValue Double Float

pub record SampleArray (Double Float : Type 0) : Type 0 where
  pub time_stamp : ℕ
  pub value : ArrayValue Double Float

-- The message `MultiTypeList`.
pub data MultiTypeList (Double Float : Type 0) : Type 0 where
  not_set : MultiTypeList Double Float
  double_list float_list long_list short_list octet_list :
      List (Sample Double Float) → MultiTypeList Double Float
  double_arraylist float_arraylist long_arraylist short_arraylist octet_arraylist :
      List (SampleArray Double Float) → MultiTypeList Double Float

-- `fillDoubleArray` and the like: the height is the rows, the width the columns.
unfoldable pub fill_array : {V U : Type 0} → (V → U) → DgtArray V → ProtoArray U
fill_array f a = record {
  rows = a.dimension.height % 2 ^ 32;
  cols = a.dimension.width % 2 ^ 32;
  contents = map f a.contents;
}

unfoldable pub fill_double_array : {Double : Type 0} → DgtArray Double → ProtoArray Double
unfolding fill_array
fill_double_array = fill_array (λ x. x)

unfoldable pub fill_float_array : {Float : Type 0} → DgtArray Float → ProtoArray Float
unfolding fill_array
fill_float_array = fill_array (λ x. x)

unfoldable pub fill_long_array : DgtArray ℕ → ProtoArray ℕ
unfolding fill_array
fill_long_array = fill_array (λ x. x)

unfoldable pub fill_short_array : DgtArray ℕ → ProtoArray ℕ
unfolding fill_array
fill_short_array = fill_array widen_short

module _ {Double Float : Type 0} where
  -- The loop of a `fillSampleList`: one sample for each, in order.
  unfoldable pub fill_sample_list :
      {V : Type 0} → (V → SampleValue Double Float) → List (MmSample V) → List (Sample Double Float)
  fill_sample_list f [] = []
  fill_sample_list f (x ∷ xs) =
      record { time_stamp = x.time_stamp.usec; value = f x.value } ∷ fill_sample_list f xs

  -- The loop of a `fillSampleArrayList`.
  unfoldable pub fill_sample_array_list :
      {V : Type 0}
      → (V → ArrayValue Double Float)
      → List (MmSample V)
      → List (SampleArray Double Float)
  fill_sample_array_list f [] = []
  fill_sample_array_list f (x ∷ xs) =
      record { time_stamp = x.time_stamp.usec; value = f x.value } ∷ fill_sample_array_list f xs

  -- The bytes of an array of octets; its dimension is not sent.
  unfoldable pub octets_of : DgtArray ℕ → ArrayValue Double Float
  octets_of a = octet_array a.contents

  -- `fromMultiTypeList`.
  unfoldable pub from_multi_type_list : MmList Double Float → MultiTypeList Double Float
  unfolding fill_sample_list fill_sample_array_list fill_double_array fill_float_array
      fill_long_array fill_short_array octets_of
  from_multi_type_list (doubles l) = double_list (fill_sample_list double_val l)
  from_multi_type_list (floats l) = float_list (fill_sample_list float_val l)
  from_multi_type_list (longs l) = long_list (fill_sample_list long_val l)
  from_multi_type_list (shorts l) = short_list (fill_sample_list (λ x. short_val (widen_short x)) l)
  from_multi_type_list (octets l) = octet_list (fill_sample_list octet_val l)
  from_multi_type_list (double_arrays1d l) =
      double_arraylist (fill_sample_array_list (λ a. double_array (fill_double_array a)) l)
  from_multi_type_list (double_arrays2d l) =
      double_arraylist (fill_sample_array_list (λ a. double_array (fill_double_array a)) l)
  from_multi_type_list (float_arrays1d l) =
      float_arraylist (fill_sample_array_list (λ a. float_array (fill_float_array a)) l)
  from_multi_type_list (float_arrays2d l) =
      float_arraylist (fill_sample_array_list (λ a. float_array (fill_float_array a)) l)
  from_multi_type_list (long_arrays1d l) =
      long_arraylist (fill_sample_array_list (λ a. long_array (fill_long_array a)) l)
  from_multi_type_list (long_arrays2d l) =
      long_arraylist (fill_sample_array_list (λ a. long_array (fill_long_array a)) l)
  from_multi_type_list (short_arrays1d l) =
      short_arraylist (fill_sample_array_list (λ a. short_array (fill_short_array a)) l)
  from_multi_type_list (short_arrays2d l) =
      short_arraylist (fill_sample_array_list (λ a. short_array (fill_short_array a)) l)
  from_multi_type_list (octet_arrays1d l) = octet_arraylist (fill_sample_array_list octets_of l)
  from_multi_type_list (octet_arrays2d l) = octet_arraylist (fill_sample_array_list octets_of l)
  from_multi_type_list (unknown_list d) = not_set

-- `MM::DataBlock`, `MM::StateChange` and `MM::MagnitudeChange`.
pub record DataBlock (Double Float : Type 0) : Type 0 where
  pub id : ℕ
  pub gcs_component : String
  pub magnitude : String
  pub time_stamp : TimeValue
  pub samples : MmList Double Float

pub record StateChange : Type 0 where
  pub gcs_component : String
  pub time_stamp : TimeValue
  pub scoped_name : String

pub record MagnitudeChange : Type 0 where
  pub gcs_component : String
  pub magnitude : String
  pub time_stamp : TimeValue
  pub new_value : ℕ

-- `DataBlockEvent`, `StateChangeEvent` and `MagnitudeChangeEvent`.
pub record DataBlockEvent (Double Float : Type 0) : Type 0 where
  pub id : ℕ
  pub component_name : String
  pub magnitude : String
  pub time_stamp : ℕ
  pub samples : MultiTypeList Double Float

pub record StateChangeEvent : Type 0 where
  pub component_name : String
  pub time_stamp : ℕ
  pub new_state : String

pub record MagnitudeChangeEvent : Type 0 where
  pub component_name : String
  pub magnitude : String
  pub time_stamp : ℕ
  pub new_value : ℕ

module _ {Double Float : Type 0} where
  unfoldable pub from_data_block : DataBlock Double Float → DataBlockEvent Double Float
  unfolding from_multi_type_list
  from_data_block block = record {
    id = block.id;
    component_name = block.gcs_component;
    magnitude = block.magnitude;
    time_stamp = block.time_stamp.usec;
    samples = from_multi_type_list block.samples;
  }

unfoldable pub from_state_change : StateChange → StateChangeEvent
from_state_change change = record {
  component_name = change.gcs_component;
  time_stamp = change.time_stamp.usec;
  new_state = change.scoped_name;
}

unfoldable pub from_magnitude_change : MagnitudeChange → MagnitudeChangeEvent
from_magnitude_change change = record {
  component_name = change.gcs_component;
  magnitude = change.magnitude;
  time_stamp = change.time_stamp.usec;
  new_value = change.new_value % 2 ^ 32;
}
