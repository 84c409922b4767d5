-- ===== src/Adapter/Monitor/Blocks.antt =====
-- What a block of samples in range is, and a message that shows it: the values of
-- src/adapter/monitor_adapter.cpp.
use api_gateway_gtc.Base.{◌≡◌, length, ℕ, ◌<◌, ◌^◌, List, [], ◌∷◌, All}
use api_gateway_gtc.Adapter.{FitsShort}
use api_gateway_gtc.Adapter.Monitor.Samples.{FitsDimension}
use api_gateway_gtc.Adapter.Monitor.{
  DgtArray, MmSample, MmList, doubles, floats, longs, shorts, octets, double_arrays1d,
  double_arrays2d, float_arrays1d, float_arrays2d, long_arrays1d, long_arrays2d, short_arrays1d,
  short_arrays2d, octet_arrays1d, octet_arrays2d, unknown_list, SampleValue, double_val, float_val,
  long_val, short_val, octet_val, Sample, ProtoArray, ArrayValue, SampleArray, MultiTypeList,
  not_set, double_list, float_list, long_list, short_list, octet_list, double_arraylist,
  float_arraylist, long_arraylist, short_arraylist, octet_arraylist, double_array, float_array,
  long_array, short_array, octet_array,
}

-- Each time stamp and each value; each dimension and each value of an array.
abbrev pub Values : {V : Type 0} → (V → Type 0) → List (MmSample V) → Type 0
Values P = All (λ x. (x.time_stamp.usec < 2 ^ 64) × P x.value)

abbrev pub Contents : (ℕ → Type 0) → List (MmSample (DgtArray ℕ)) → Type 0
Contents P = Values (λ a. FitsDimension a × All P a.contents)

-- A block whose numbers are those of its CORBA types.
abbrev pub BlockInRange : {Double Float : Type 0} → MmList Double Float → Type 0
BlockInRange (longs l) = Values (λ n. n < 2 ^ 32) l
BlockInRange (shorts l) = Values (λ n. n < 2 ^ 16) l
BlockInRange (octets l) = Values (λ n. n < 2 ^ 8) l
BlockInRange (long_arrays1d l) = Contents (λ n. n < 2 ^ 32) l
BlockInRange (long_arrays2d l) = Contents (λ n. n < 2 ^ 32) l
BlockInRange (short_arrays1d l) = Contents (λ n. n < 2 ^ 16) l
BlockInRange (short_arrays2d l) = Contents (λ n. n < 2 ^ 16) l
BlockInRange (octet_arrays1d l) = Contents (λ n. n < 2 ^ 8) l
BlockInRange (octet_arrays2d l) = Contents (λ n. n < 2 ^ 8) l
BlockInRange (doubles l) = Values (λ d. Unit {0}) l
BlockInRange (floats l) = Values (λ d. Unit {0}) l
BlockInRange (double_arrays1d l) = Values FitsDimension l
BlockInRange (double_arrays2d l) = Values FitsDimension l
BlockInRange (float_arrays1d l) = Values FitsDimension l
BlockInRange (float_arrays2d l) = Values FitsDimension l
BlockInRange (unknown_list d) = Unit {0}

-- The numbers of a message fit their fields, and a short is the pattern of a 16-bit value.
abbrev pub SampleInRange : {Double Float : Type 0} → SampleValue Double Float → Type 0
SampleInRange (double_val d) = Unit {0}
SampleInRange (float_val d) = Unit {0}
SampleInRange (long_val n) = n < 2 ^ 32
SampleInRange (short_val n) = FitsShort n
SampleInRange (octet_val n) = n < 2 ^ 8

abbrev pub Sized : {V : Type 0} → ProtoArray V → Type 0
Sized a = (a.rows < 2 ^ 32) × (a.cols < 2 ^ 32)

abbrev pub ArrayInRange : {Double Float : Type 0} → ArrayValue Double Float → Type 0
ArrayInRange (double_array a) = Sized a
ArrayInRange (float_array a) = Sized a
ArrayInRange (long_array a) = Sized a × All (λ n. n < 2 ^ 32) a.contents
ArrayInRange (short_array a) = Sized a × All FitsShort a.contents
ArrayInRange (octet_array bs) = All (λ n. n < 2 ^ 8) bs

-- The height is the rows and the width the columns, where an array of a message has them.
abbrev pub Shaped : {V Double Float : Type 0} → DgtArray V → ArrayValue Double Float → Type 0
Shaped d (double_array a) = (a.rows ≡ d.dimension.height) × (a.cols ≡ d.dimension.width)
Shaped d (float_array a) = (a.rows ≡ d.dimension.height) × (a.cols ≡ d.dimension.width)
Shaped d (long_array a) = (a.rows ≡ d.dimension.height) × (a.cols ≡ d.dimension.width)
Shaped d (short_array a) = (a.rows ≡ d.dimension.height) × (a.cols ≡ d.dimension.width)
Shaped d (octet_array bs) = Unit {0}

-- How many numbers an array of a message has.
abbrev pub size : {Double Float : Type 0} → ArrayValue Double Float → ℕ
size (double_array a) = length a.contents
size (float_array a) = length a.contents
size (long_array a) = length a.contents
size (short_array a) = length a.contents
size (octet_array bs) = length bs

module _ {Double Float : Type 0} where
  -- One sample for each in the block, with its time stamp; the numbers fit.
  abbrev pub Samples : {V : Type 0} → List (MmSample V) → List (Sample Double Float) → Type 0
  Samples [] [] = Unit {0}
  Samples (x ∷ l) (s ∷ m) =
      (s.time_stamp ≡ x.time_stamp.usec)
      × (s.time_stamp < 2 ^ 64)
      × SampleInRange s.value
      × Samples l m
  Samples _ _ = ⊥

  -- The same for arrays, each with its dimension and as many numbers as in the block.
  abbrev pub Arrays :
      {V : Type 0} → List (MmSample (DgtArray V)) → List (SampleArray Double Float) → Type 0
  Arrays [] [] = Unit {0}
  Arrays (x ∷ l) (s ∷ m) =
      (s.time_stamp ≡ x.time_stamp.usec)
      × (s.time_stamp < 2 ^ 64)
      × (size s.value ≡ length x.value.contents)
      × Shaped x.value s.value
      × ArrayInRange s.value
      × Arrays l m
  Arrays _ _ = ⊥

  -- A message of the block's type, with a sample in range for each of the block.
  abbrev pub MessageInRange : MmList Double Float → MultiTypeList Double Float → Type 0
  MessageInRange (doubles l) (double_list m) = Samples l m
  MessageInRange (floats l) (float_list m) = Samples l m
  MessageInRange (longs l) (long_list m) = Samples l m
  MessageInRange (shorts l) (short_list m) = Samples l m
  MessageInRange (octets l) (octet_list m) = Samples l m
  MessageInRange (double_arrays1d l) (double_arraylist m) = Arrays l m
  MessageInRange (double_arrays2d l) (double_arraylist m) = Arrays l m
  MessageInRange (float_arrays1d l) (float_arraylist m) = Arrays l m
  MessageInRange (float_arrays2d l) (float_arraylist m) = Arrays l m
  MessageInRange (long_arrays1d l) (long_arraylist m) = Arrays l m
  MessageInRange (long_arrays2d l) (long_arraylist m) = Arrays l m
  MessageInRange (short_arrays1d l) (short_arraylist m) = Arrays l m
  MessageInRange (short_arrays2d l) (short_arraylist m) = Arrays l m
  MessageInRange (octet_arrays1d l) (octet_arraylist m) = Arrays l m
  MessageInRange (octet_arrays2d l) (octet_arraylist m) = Arrays l m
  MessageInRange (unknown_list d) not_set = Unit {0}
  MessageInRange _ _ = ⊥
