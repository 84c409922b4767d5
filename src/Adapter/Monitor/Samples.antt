-- ===== src/Adapter/Monitor/Samples.antt =====
-- Samples and arrays read back from their messages.
use api_gateway_gtc.Base.{ℕ, ◌<◌, ◌^◌, ◌≡◌, refl, Option, none, some, List, [], ◌∷◌, map, All}
use native.Mathlib.Nat.{mod-eq_of_lt}
use api_gateway_gtc.Adapter.{widen_short, narrow_short, narrow-widen_short}
use api_gateway_gtc.Adapter.Monitor.{
  DgtArray, MmSample, SampleValue, Sample, ProtoArray, ArrayValue, SampleArray, fill_array,
  fill_sample_list, fill_sample_array_list,
}

-- A sample read back, where its value can be.
abbrev stamped : {V : Type 0} → ℕ → Option V → Option (MmSample V)
stamped t none = none
stamped t (some v) = some (record { time_stamp = record { usec = t }; value = v })

abbrev join : {V : Type 0} → Option V → Option (List V) → Option (List V)
join none r = none
join (some v) none = none
join (some v) (some r) = some (v ∷ r)

module _ {Double Float : Type 0} where
  unfoldable pub read_samples :
      {V : Type 0}
      → (SampleValue Double Float → Option V)
      → List (Sample Double Float)
      → Option (List (MmSample V))
  read_samples g [] = some []
  read_samples g (x ∷ xs) = join (stamped x.time_stamp (g x.value)) (read_samples g xs)

  unfoldable pub read_arrays :
      {V : Type 0}
      → (ArrayValue Double Float → Option V)
      → List (SampleArray Double Float)
      → Option (List (MmSample V))
  read_arrays g [] = some []
  read_arrays g (x ∷ xs) = join (stamped x.time_stamp (g x.value)) (read_arrays g xs)

  pub read_samples-fill :
      {V : Type 0} (f : V → SampleValue Double Float) (g : SampleValue Double Float → Option V)
      (l : List (MmSample V))
      → All (λ x. g (f x.value) ≡ some x.value) l
      → read_samples g (fill_sample_list f l) ≡ some l
  unfolding read_samples fill_sample_list
  read_samples-fill f g [] h = refl
  read_samples-fill f g (x ∷ xs) h = rw (h.0, read_samples-fill f g xs h.1)

  pub read_arrays-fill :
      {V : Type 0} (f : V → ArrayValue Double Float) (g : ArrayValue Double Float → Option V)
      (l : List (MmSample V))
      → All (λ x. g (f x.value) ≡ some x.value) l
      → read_arrays g (fill_sample_array_list f l) ≡ some l
  unfolding read_arrays fill_sample_array_list
  read_arrays-fill f g [] h = refl
  read_arrays-fill f g (x ∷ xs) h = rw (h.0, read_arrays-fill f g xs h.1)

-- The numbers of an array as they can be read back.
abbrev pub read_array : {V U : Type 0} → (U → V) → ProtoArray U → DgtArray V
read_array g a = record {
  dimension = record { height = a.rows; width = a.cols };
  contents = map g a.contents;
}

-- The dimension's numbers fit in 32 bits.
abbrev pub FitsDimension : {V : Type 0} → DgtArray V → Type 0
FitsDimension a = (a.dimension.height < 2 ^ 32) × (a.dimension.width < 2 ^ 32)

map_back :
    {V U : Type 0} (f : V → U) (g : U → V) (xs : List V)
    → All (λ x. g (f x) ≡ x) xs
    → map g (map f xs) ≡ xs
map_back f g [] h = refl
map_back f g (x ∷ xs) h = rw (h.0, map_back f g xs h.1)

read_array-fill :
    {V U : Type 0} (f : V → U) (g : U → V) (a : DgtArray V)
    → FitsDimension a
    → All (λ x. g (f x) ≡ x) a.contents
    → read_array g (fill_array f a) ≡ a
unfolding fill_array
read_array-fill f g a d h = rw (mod-eq_of_lt d.0, mod-eq_of_lt d.1, map_back f g a.contents h)

abbrev pub FitArrays : {V : Type 0} → List (MmSample (DgtArray V)) → Type 0
FitArrays = All (λ s. FitsDimension s.value)

abbrev pub FitShortArray : DgtArray ℕ → Type 0
FitShortArray a = FitsDimension a × All (λ x. x < 2 ^ 16) a.contents

pub everywhere : {V : Type 0} (P : V → Type 0) (l : List V) → ((x : V) → P x) → All P l
everywhere P [] h = tt
everywhere P (x ∷ l) h = (h x, everywhere P l h)

pub All-mono :
    {V : Type 0} (P Q : V → Type 0) (l : List V) → ((x : V) → P x → Q x) → All P l → All Q l
All-mono P Q [] h a = tt
All-mono P Q (x ∷ l) h a = (h x a.0, All-mono P Q l h a.1)

pub plain_array :
    {V : Type 0} (a : DgtArray V)
    → FitsDimension a
    → read_array (λ x. x) (fill_array (λ x. x) a) ≡ a
plain_array a d = read_array-fill (λ x. x) (λ x. x) a d (everywhere _ a.contents (λ x. refl))

pub short_back :
    (a : DgtArray ℕ) → FitShortArray a → read_array narrow_short (fill_array widen_short a) ≡ a
short_back a h =
    read_array-fill widen_short narrow_short a h.0
      (All-mono _ _ a.contents (λ x lt. narrow-widen_short x lt) h.1)
