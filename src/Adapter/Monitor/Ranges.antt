-- ===== src/Adapter/Monitor/Ranges.antt =====
-- The ranges of the numbers in a block of samples and in its message.
use api_gateway_gtc.Base.{
  refl, ◌≡◌, length, length-map, ℕ, ◌<◌, ◌^◌, List, [], ◌∷◌, map, All, arith,
}
use api_gateway_gtc.Adapter.{widen_short, FitsShort}
use api_gateway_gtc.Adapter.Bounds.{widen_short-FitsShort}
use api_gateway_gtc.Adapter.Monitor.Blocks.{
  Values, Contents, BlockInRange, SampleInRange, Sized, ArrayInRange, Shaped, size, Samples, Arrays,
  MessageInRange,
}
use api_gateway_gtc.Adapter.Monitor.Samples.{FitsDimension}
use api_gateway_gtc.Adapter.Monitor.{
  DgtArray, MmSample, MmList, doubles, floats, longs, shorts, octets, double_arrays1d,
  double_arrays2d, float_arrays1d, float_arrays2d, long_arrays1d, long_arrays2d, short_arrays1d,
  short_arrays2d, octet_arrays1d, octet_arrays2d, unknown_list, SampleValue, double_val, float_val,
  long_val, short_val, octet_val, ArrayValue, double_array, float_array, long_array, short_array,
  fill_array, fill_long_array, fill_short_array, fill_double_array, fill_float_array,
  fill_sample_list, fill_sample_array_list, octets_of, from_multi_type_list,
}

sized : {V U : Type 0} (f : V → U) (a : DgtArray V) → Sized (fill_array f a)
unfolding fill_array
sized f a = (omega arith, omega arith)

shaped :
    {V U : Type 0} (f : V → U) (a : DgtArray V)
    → FitsDimension a
    → ((fill_array f a).rows ≡ a.dimension.height) × ((fill_array f a).cols ≡ a.dimension.width)
unfolding fill_array
shaped f a (h, w) = (omega arith, omega arith)

same : (xs : List ℕ) → All (λ n. n < 2 ^ 32) xs → All (λ n. n < 2 ^ 32) (map (λ x. x) xs)
same [] h = tt
same (x ∷ xs) h = (h.0, same xs h.1)

widened : (xs : List ℕ) → All (λ n. n < 2 ^ 16) xs → All FitsShort (map widen_short xs)
widened [] h = tt
widened (x ∷ xs) h = (widen_short-FitsShort x h.0, widened xs h.1)

module _ {Double Float : Type 0} where
  samples :
      {V : Type 0} (P : V → Type 0) (f : V → SampleValue Double Float)
      → ((v : V) → P v → SampleInRange (f v))
      → (l : List (MmSample V)) → Values P l
      → Samples l (fill_sample_list f l)
  unfolding fill_sample_list
  samples P f each [] h = tt
  samples P f each (x ∷ l) h = (refl, h.0.0, each x.value h.0.1, samples P f each l h.1)

  arrays :
      {V : Type 0} (P : DgtArray V → Type 0) (f : DgtArray V → ArrayValue Double Float)
      → ((a : DgtArray V) → size (f a) ≡ length a.contents)
      → ((a : DgtArray V) → P a → Shaped a (f a) × ArrayInRange (f a))
      → (l : List (MmSample (DgtArray V))) → Values P l
      → Arrays l (fill_sample_array_list f l)
  unfolding fill_sample_array_list
  arrays P f as_many each [] h = tt
  arrays P f as_many each (x ∷ l) h =
      let (shape, range) = each x.value h.0.1 in
      (refl, h.0.0, as_many x.value, shape, range, arrays P f as_many each l h.1)

module _ (Double Float : Type 0) where
  long-Arrays :
      (l : List (MmSample (DgtArray ℕ)))
      → Contents (λ n. n < 2 ^ 32) l
      → Arrays {Double = Double} {Float = Float} l
          (fill_sample_array_list (λ a. long_array (fill_long_array a)) l)
  unfolding fill_long_array fill_array
  long-Arrays =
      arrays (λ a. FitsDimension a × All (λ n. n < 2 ^ 32) a.contents)
        (λ a. long_array (fill_long_array a)) (λ a. length-map (λ x. x) a.contents)
        (λ a h. (shaped (λ x. x) a h.0, (sized (λ x. x) a, same a.contents h.1)))

  short-Arrays :
      (l : List (MmSample (DgtArray ℕ)))
      → Contents (λ n. n < 2 ^ 16) l
      → Arrays {Double = Double} {Float = Float} l
          (fill_sample_array_list (λ a. short_array (fill_short_array a)) l)
  unfolding fill_short_array fill_array
  short-Arrays =
      arrays (λ a. FitsDimension a × All (λ n. n < 2 ^ 16) a.contents)
        (λ a. short_array (fill_short_array a)) (λ a. length-map widen_short a.contents)
        (λ a h. (shaped widen_short a h.0, (sized widen_short a, widened a.contents h.1)))

  octet-Arrays :
      (l : List (MmSample (DgtArray ℕ)))
      → Contents (λ n. n < 2 ^ 8) l
      → Arrays {Double = Double} {Float = Float} l (fill_sample_array_list octets_of l)
  unfolding octets_of
  octet-Arrays =
      arrays (λ a. FitsDimension a × All (λ n. n < 2 ^ 8) a.contents) octets_of (λ a. refl)
        (λ a h. (tt, h.1))

  double-Arrays :
      (l : List (MmSample (DgtArray Double)))
      → Values FitsDimension l
      → Arrays {Double = Double} {Float = Float} l
          (fill_sample_array_list (λ a. double_array (fill_double_array a)) l)
  unfolding fill_double_array fill_array
  double-Arrays =
      arrays FitsDimension (λ a. double_array (fill_double_array a))
        (λ a. length-map (λ x. x) a.contents) (λ a h. (shaped (λ x. x) a h, sized (λ x. x) a))

  float-Arrays :
      (l : List (MmSample (DgtArray Float)))
      → Values FitsDimension l
      → Arrays {Double = Double} {Float = Float} l
          (fill_sample_array_list (λ a. float_array (fill_float_array a)) l)
  unfolding fill_float_array fill_array
  float-Arrays =
      arrays FitsDimension (λ a. float_array (fill_float_array a))
        (λ a. length-map (λ x. x) a.contents) (λ a h. (shaped (λ x. x) a h, sized (λ x. x) a))

module _ {Double Float : Type 0} where
  -- If the time stamps and the numbers of a block of samples are in the range of their CORBA types
  -- and its dimensions fit in 32 bits, its message has one sample for each, with its time stamp
  -- and, for an array, as many numbers and, unless of octets, the height as rows and the width as
  -- columns, and all of them fit their fields, a short as the 32-bit pattern of a 16-bit value and
  -- an octet below 256.
  pub from_multi_type_list-MessageInRange :
      (l : MmList Double Float) → BlockInRange l → MessageInRange l (from_multi_type_list l)
  unfolding from_multi_type_list
  from_multi_type_list-MessageInRange (doubles l) h =
      samples (λ _. Unit {0}) double_val (λ v u. tt) l h
  from_multi_type_list-MessageInRange (floats l) h =
      samples (λ _. Unit {0}) float_val (λ v u. tt) l h
  from_multi_type_list-MessageInRange (longs l) h =
      samples (λ n. n < 2 ^ 32) long_val (λ v k. k) l h
  from_multi_type_list-MessageInRange (shorts l) h =
      samples (λ n. n < 2 ^ 16) (λ x. short_val (widen_short x)) (λ v k. widen_short-FitsShort v k)
        l h
  from_multi_type_list-MessageInRange (octets l) h =
      samples (λ n. n < 2 ^ 8) octet_val (λ v k. k) l h
  from_multi_type_list-MessageInRange (double_arrays1d l) h = double-Arrays Double Float l h
  from_multi_type_list-MessageInRange (double_arrays2d l) h = double-Arrays Double Float l h
  from_multi_type_list-MessageInRange (float_arrays1d l) h = float-Arrays Double Float l h
  from_multi_type_list-MessageInRange (float_arrays2d l) h = float-Arrays Double Float l h
  from_multi_type_list-MessageInRange (long_arrays1d l) h = long-Arrays Double Float l h
  from_multi_type_list-MessageInRange (long_arrays2d l) h = long-Arrays Double Float l h
  from_multi_type_list-MessageInRange (short_arrays1d l) h = short-Arrays Double Float l h
  from_multi_type_list-MessageInRange (short_arrays2d l) h = short-Arrays Double Float l h
  from_multi_type_list-MessageInRange (octet_arrays1d l) h = octet-Arrays Double Float l h
  from_multi_type_list-MessageInRange (octet_arrays2d l) h = octet-Arrays Double Float l h
  from_multi_type_list-MessageInRange (unknown_list d) h = tt
