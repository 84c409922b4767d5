-- ===== src/Adapter/Monitor/Restore.antt =====
-- What a client can read back from a list of samples.
use api_gateway_gtc.Base.{ℕ, ◌<◌, ◌^◌, ◌≡◌, refl, ap, ◌∙◌, Option, none, some, List, All}
use api_gateway_gtc.Adapter.{widen_short, narrow_short, narrow-widen_short}
use api_gateway_gtc.Adapter.Monitor.{
  DgtArray, MmSample, MmList, doubles, floats, longs, shorts, octets, double_arrays1d,
  double_arrays2d, float_arrays1d, float_arrays2d, long_arrays1d, long_arrays2d, short_arrays1d,
  short_arrays2d, octet_arrays1d, octet_arrays2d, unknown_list, SampleValue, double_val, float_val,
  long_val, short_val, octet_val, ProtoArray, ArrayValue, double_array, float_array, long_array,
  short_array, MultiTypeList, not_set, double_list, float_list, long_list, short_list, octet_list,
  double_arraylist, float_arraylist, long_arraylist, short_arraylist, octet_arraylist, fill_array,
  fill_double_array, fill_float_array, fill_long_array, fill_short_array, fill_sample_array_list,
  from_multi_type_list,
}
use api_gateway_gtc.Adapter.Monitor.Samples.{
  All-mono, FitArrays, FitShortArray, everywhere, plain_array, read_array, read_arrays,
  read_arrays-fill, read_samples, read_samples-fill, short_back,
}

module _ {Double Float : Type 0} where
  abbrev get_double : SampleValue Double Float → Option Double
  get_double (double_val d) = some d
  get_double _ = none

  abbrev get_float : SampleValue Double Float → Option Float
  get_float (float_val d) = some d
  get_float _ = none

  abbrev get_long : SampleValue Double Float → Option ℕ
  get_long (long_val d) = some d
  get_long _ = none

  abbrev get_short : SampleValue Double Float → Option ℕ
  get_short (short_val d) = some (narrow_short d)
  get_short _ = none

  abbrev get_octet : SampleValue Double Float → Option ℕ
  get_octet (octet_val d) = some d
  get_octet _ = none

  abbrev get_double_array : ArrayValue Double Float → Option (DgtArray Double)
  get_double_array (double_array a) = some (read_array (λ x. x) a)
  get_double_array _ = none

  abbrev get_float_array : ArrayValue Double Float → Option (DgtArray Float)
  get_float_array (float_array a) = some (read_array (λ x. x) a)
  get_float_array _ = none

  abbrev get_long_array : ArrayValue Double Float → Option (DgtArray ℕ)
  get_long_array (long_array a) = some (read_array (λ x. x) a)
  get_long_array _ = none

  abbrev get_short_array : ArrayValue Double Float → Option (DgtArray ℕ)
  get_short_array (short_array a) = some (read_array narrow_short a)
  get_short_array _ = none

  abbrev tagged :
      {V : Type 0}
      → (List (MmSample V) → MmList Double Float)
      → Option (List (MmSample V))
      → Option (MmList Double Float)
  tagged f none = none
  tagged f (some l) = some (f l)

  -- A client's reading of the message. The arrays come back as one-dimensional ones, and octet
  -- arrays, which have lost their dimension, do not come back.
  pub restore : MultiTypeList Double Float → Option (MmList Double Float)
  unfolding read_samples read_arrays
  restore not_set = none
  restore (double_list l) = tagged doubles (read_samples get_double l)
  restore (float_list l) = tagged floats (read_samples get_float l)
  restore (long_list l) = tagged longs (read_samples get_long l)
  restore (short_list l) = tagged shorts (read_samples get_short l)
  restore (octet_list l) = tagged octets (read_samples get_octet l)
  restore (double_arraylist l) = tagged double_arrays1d (read_arrays get_double_array l)
  restore (float_arraylist l) = tagged float_arrays1d (read_arrays get_float_array l)
  restore (long_arraylist l) = tagged long_arrays1d (read_arrays get_long_array l)
  restore (short_arraylist l) = tagged short_arrays1d (read_arrays get_short_array l)
  restore (octet_arraylist l) = none

  -- The list with its two-dimensional arrays taken as one-dimensional ones.
  abbrev pub flat : MmList Double Float → MmList Double Float
  flat (double_arrays2d l) = double_arrays1d l
  flat (float_arrays2d l) = float_arrays1d l
  flat (long_arrays2d l) = long_arrays1d l
  flat (short_arrays2d l) = short_arrays1d l
  flat l = l

  -- The numbers are in the ranges of their CORBA types, and the list is of a known kind other than
  -- the octet arrays.
  abbrev pub Restorable : MmList Double Float → Type 0
  Restorable (doubles l) = Unit
  Restorable (floats l) = Unit
  Restorable (longs l) = Unit
  Restorable (shorts l) = All (λ s. s.value < 2 ^ 16) l
  Restorable (octets l) = Unit
  Restorable (double_arrays1d l) = FitArrays l
  Restorable (double_arrays2d l) = FitArrays l
  Restorable (float_arrays1d l) = FitArrays l
  Restorable (float_arrays2d l) = FitArrays l
  Restorable (long_arrays1d l) = FitArrays l
  Restorable (long_arrays2d l) = FitArrays l
  Restorable (short_arrays1d l) = All (λ s. FitShortArray s.value) l
  Restorable (short_arrays2d l) = All (λ s. FitShortArray s.value) l
  Restorable (octet_arrays1d l) = ⊥
  Restorable (octet_arrays2d l) = ⊥
  Restorable (unknown_list d) = ⊥

  plain_arrays :
      {V : Type 0} (put : ProtoArray V → ArrayValue Double Float)
      (get : ArrayValue Double Float → Option (DgtArray V))
      → ((a : DgtArray V)
          → get (put (fill_array (λ x. x) a)) ≡ some (read_array (λ x. x) (fill_array (λ x. x) a)))
      → (l : List (MmSample (DgtArray V))) → FitArrays l
      → read_arrays get (fill_sample_array_list (λ a. put (fill_array (λ x. x) a)) l) ≡ some l
  plain_arrays put get e l h =
      read_arrays-fill (λ a. put (fill_array (λ x. x) a)) get l
        (All-mono _ _ l (λ x d. e x.value ∙ ap some (plain_array x.value d)) h)

  short_arrays :
      (put : ProtoArray ℕ → ArrayValue Double Float)
      (get : ArrayValue Double Float → Option (DgtArray ℕ))
      → ((a : DgtArray ℕ)
          → get (put (fill_array widen_short a))
            ≡ some (read_array narrow_short (fill_array widen_short a)))
      → (l : List (MmSample (DgtArray ℕ))) → All (λ s. FitShortArray s.value) l
      → read_arrays get (fill_sample_array_list (λ a. put (fill_array widen_short a)) l) ≡ some l
  short_arrays put get e l h =
      read_arrays-fill (λ a. put (fill_array widen_short a)) get l
        (All-mono _ _ l (λ x d. e x.value ∙ ap some (short_back x.value d)) h)

  -- Every sample of a list that is not of octet arrays or of an unknown kind, with numbers in
  -- range, can be read back from the message with its time and value, in order; two-dimensional
  -- arrays come back as one-dimensional.
  pub restore-from_multi_type_list :
      (l : MmList Double Float) → Restorable l → restore (from_multi_type_list l) ≡ some (flat l)
  unfolding restore from_multi_type_list fill_double_array fill_float_array fill_long_array
      fill_short_array
  restore-from_multi_type_list (doubles l) h =
      ap (tagged doubles) (read_samples-fill double_val get_double l (everywhere _ l (λ x. refl)))
  restore-from_multi_type_list (floats l) h =
      ap (tagged floats) (read_samples-fill float_val get_float l (everywhere _ l (λ x. refl)))
  restore-from_multi_type_list (longs l) h =
      ap (tagged longs) (read_samples-fill long_val get_long l (everywhere _ l (λ x. refl)))
  restore-from_multi_type_list (octets l) h =
      ap (tagged octets) (read_samples-fill octet_val get_octet l (everywhere _ l (λ x. refl)))
  restore-from_multi_type_list (shorts l) h = ap (tagged shorts) (
      read_samples-fill (λ x. short_val (widen_short x)) get_short l
        (All-mono _ _ l (λ x lt. ap some (narrow-widen_short x.value lt)) h))
  restore-from_multi_type_list (double_arrays1d l) h =
      ap (tagged double_arrays1d) (plain_arrays double_array get_double_array (λ a. refl) l h)
  restore-from_multi_type_list (double_arrays2d l) h =
      ap (tagged double_arrays1d) (plain_arrays double_array get_double_array (λ a. refl) l h)
  restore-from_multi_type_list (float_arrays1d l) h =
      ap (tagged float_arrays1d) (plain_arrays float_array get_float_array (λ a. refl) l h)
  restore-from_multi_type_list (float_arrays2d l) h =
      ap (tagged float_arrays1d) (plain_arrays float_array get_float_array (λ a. refl) l h)
  restore-from_multi_type_list (long_arrays1d l) h =
      ap (tagged long_arrays1d) (plain_arrays long_array get_long_array (λ a. refl) l h)
  restore-from_multi_type_list (long_arrays2d l) h =
      ap (tagged long_arrays1d) (plain_arrays long_array get_long_array (λ a. refl) l h)
  restore-from_multi_type_list (short_arrays1d l) h =
      ap (tagged short_arrays1d) (short_arrays short_array get_short_array (λ a. refl) l h)
  restore-from_multi_type_list (short_arrays2d l) h =
      ap (tagged short_arrays1d) (short_arrays short_array get_short_array (λ a. refl) l h)
  restore-from_multi_type_list (octet_arrays1d l) h = absurd h
  restore-from_multi_type_list (octet_arrays2d l) h = absurd h
  restore-from_multi_type_list (unknown_list l) h = absurd h
