-- ===== src/Naming/BuildName.antt =====
-- `NsResolver::buildName`: the path's segments become the name's components.
use text.Mathlib.TextLemmas.{nil-append, cons-append}
use api_gateway_gtc.Base.{
  c_str, String, ◌++◌, ◌≡◌, refl, ap, ◌↔◌, Bool, true, ◌&&◌, List, [], ◌∷◌, map, append, code,
  nat_eq, All, arith, Bool-cases, inl, inr,
}
use api_gateway_gtc.Base.Outcome.{ok, throw, invalid_argument}
use api_gateway_gtc.Naming.{
  components, name_of, build_name, pieces, segments, no_slash, is_nonempty,
}
use api_gateway_gtc.Naming.Text.{kept}

-- A path written as the code writes it: `/` between the segments.
unfoldable pub join : List String → String
join [] = ""
join (s ∷ []) = s
join (s ∷ t ∷ rest) = s ++ "/" ++ join (t ∷ rest)

abbrev pub IsSegment : String → Type 0
IsSegment s = (is_nonempty s ≡ true) × (no_slash s ≡ true)

pieces_segment : (s : String) → no_slash s ≡ true → pieces s ≡ (s, [])
unfolding no_slash pieces
pieces_segment String.[] h = refl
pieces_segment (String.◌∷◌ c s) h = ground (arith, pieces_segment s)

pieces_joined :
    (s t : String) → no_slash s ≡ true → pieces (s ++ ("/" ++ t)) ≡ (s, (pieces t).0 ∷ (pieces t).1)
unfolding no_slash pieces
pieces_joined String.[] t h = rw (nil-append ("/" ++ t), cons-append "/" String.[] t, nil-append t)
pieces_joined (String.◌∷◌ c s) t h =
    rw (cons-append c s ("/" ++ t)) (ground (arith, pieces_joined s t))

-- The segments of a joined path are the ones that were joined.
segments-join : (segs : List String) → All IsSegment segs → segments (join segs) ≡ segs
unfolding segments pieces kept join
segments-join [] h = refl
segments-join (s ∷ []) h = ground (arith, pieces_segment s)
segments-join (s ∷ t ∷ rest) h =
    ground (arith, pieces_joined s (join (t ∷ rest)), segments-join (t ∷ rest) h.1)

-- A path of non-empty segments with a slash between them names the segments in order, all but the
-- last of kind `container`, the last of the leaf kind; the segments and the leaf kind count up to
-- their first NUL.
pub build_name-join :
    (leaf_kind : String) (front : List String) (last : String)
    → All IsSegment (append front (last ∷ []))
    → build_name (join (append front (last ∷ []))) leaf_kind
      ≡ ok (
          append
            (map (λ s. record { id = c_str s; kind = "container" }) front)
            (record { id = c_str last; kind = c_str leaf_kind } ∷ []))
unfolding build_name
build_name-join leaf_kind front last h =
    rw (build_name, segments-join (append front (last ∷ [])) h) (named front)
  where
    kinds :
        (xs : List String)
        → components leaf_kind (append xs (last ∷ []))
          ≡ append
              (map (λ s. record { id = c_str s; kind = "container" }) xs)
              (record { id = c_str last; kind = c_str leaf_kind } ∷ [])
    kinds [] = refl
    kinds (x ∷ []) = refl
    kinds (x ∷ y ∷ xs) = ap (◌∷◌ (record { id = c_str x; kind = "container" })) (kinds (y ∷ xs))

    named :
        (xs : List String)
        → name_of leaf_kind (append xs (last ∷ []))
          ≡ ok (
              append
                (map (λ s. record { id = c_str s; kind = "container" }) xs)
                (record { id = c_str last; kind = c_str leaf_kind } ∷ []))
    named [] = refl
    named (x ∷ xs) = ap ok (kinds (x ∷ xs))

-- Nothing but slashes.
pub only_slashes : String → Bool
only_slashes String.[] = true
only_slashes (String.◌∷◌ c s) = nat_eq (code c) b'/' && only_slashes s

segments_slashes : (s : String) → only_slashes s ≡ true → segments s ≡ []
unfolding only_slashes segments pieces kept
segments_slashes String.[] h = refl
segments_slashes (String.◌∷◌ c s) h = ground (arith, segments_slashes s)

slashes_of_segments : (s : String) → segments s ≡ [] → only_slashes s ≡ true
unfolding only_slashes segments pieces kept
slashes_of_segments String.[] h = refl
slashes_of_segments (String.◌∷◌ c s) h = ground (arith, slashes_of_segments s)

-- `buildName` throws exactly when the path is empty or holds nothing but slashes.
pub build_name_refuses :
    (path leaf_kind : String)
    → (build_name path leaf_kind ≡ throw (invalid_argument "NsResolver: empty path"))
      ↔ (only_slashes path ≡ true)
unfolding build_name
build_name_refuses path leaf_kind =
    (λ h. slashes_of_segments path (ground arith), λ h. ground (arith, segments_slashes path))

-- Every component's id is a segment, whatever the path.
kept-IsSegment : (ps : List String) → All (λ s. no_slash s ≡ true) ps → All IsSegment (kept ps)
unfolding kept
kept-IsSegment [] h = tt
kept-IsSegment (p ∷ ps) h = elim (Bool-cases (is_nonempty p)) [
  | inl e ↦ rw e ((e, h.0), kept-IsSegment ps h.1)
  | inr e ↦ rw e (kept-IsSegment ps h.1)
]

pieces-no_slash : (s : String) → All (λ s. no_slash s ≡ true) ((pieces s).0 ∷ (pieces s).1)
unfolding pieces no_slash
pieces-no_slash String.[] = (refl, tt)
pieces-no_slash (String.◌∷◌ c s) = elim (Bool-cases (nat_eq (code c) b'/')) [
  | inl e ↦ rw e (refl, pieces-no_slash s)
  | inr e ↦ rw e (ground (arith, pieces-no_slash s), (pieces-no_slash s).1)
]

pub segments-IsSegment : (path : String) → All IsSegment (segments path)
unfolding segments
segments-IsSegment path = kept-IsSegment ((pieces path).0 ∷ (pieces path).1) (pieces-no_slash path)
