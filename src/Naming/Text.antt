-- ===== src/Naming/Text.antt =====
-- How `buildName` cuts a path: `std::getline` at each `/`, and the empty pieces are dropped.
use api_gateway_gtc.Base.{
  String, ◌≡◌, refl, Bool, true, false, not, ◌&&◌, List, [], ◌∷◌, code, nat_eq, if◌then◌else◌,
}

-- The first piece, and the pieces after each `/`.
unfoldable pub pieces : String → String × List String
pieces String.[] = (String.[], [])
pieces (String.◌∷◌ c s) =
    let rest = pieces s in
    if nat_eq (code c) b'/' then (String.[], rest.0 ∷ rest.1) else (String.◌∷◌ c rest.0, rest.1)

abbrev pub is_nonempty : String → Bool
is_nonempty String.[] = false
is_nonempty (String.◌∷◌ c s) = true

-- `if (!seg.empty()) segments.push_back(seg)`.
unfoldable pub kept : List String → List String
kept [] = []
kept (s ∷ rest) = if is_nonempty s then s ∷ kept rest else kept rest

unfoldable pub segments : String → List String
unfolding pieces kept
segments path = kept ((pieces path).0 ∷ (pieces path).1)

unfoldable pub no_slash : String → Bool
no_slash String.[] = true
no_slash (String.◌∷◌ c s) = not (nat_eq (code c) b'/') && no_slash s

segments_test : segments "/a//bc/" ≡ "a" ∷ "bc" ∷ []
unfolding segments
segments_test = refl
