-- ===== src/ConfigService/Split.antt =====
-- Component and property of a full name, and the name under which the change of the property is
-- dispatched.
use text.Mathlib.TextLemmas.{nil-append, cons-append}
use text.Mathlib.TextEquality.{Char-path}
use api_gateway_gtc.Base.{
  ℕ, String, ◌++◌, ◌≡◌, refl, sym, ap, ◌∙◌, arith, Bool, true, false, not, ◌&&◌, none, some, code,
  nat_eq, Bool-cases, inl, inr, if◌then◌else◌,
}
use api_gateway_gtc.Consumer.{full_id}
use api_gateway_gtc.ConfigService.{split_last, property_change}

-- No dot in the text.
unfoldable pub no_dot : String → Bool
no_dot String.[] = true
no_dot (String.◌∷◌ c s) = not (nat_eq (code c) b'.') && no_dot s

split_last-no_dot : (s : String) → no_dot s ≡ true → split_last s ≡ none
unfolding no_dot split_last
split_last-no_dot String.[] h = refl
split_last-no_dot (String.◌∷◌ c s) h = ground (arith, split_last-no_dot s)

-- The parts of a text with a dot, joined by one, are the text.
abbrev Rejoins : String → Type 0
Rejoins s =
    (parts : String × String) × (split_last s ≡ some parts) × (parts.0 ++ "." ++ parts.1 ≡ s)

split_last-Rejoins : (s : String) → no_dot s ≡ false → Rejoins s
unfolding no_dot split_last
split_last-Rejoins String.[] h = absurd (ground arith)
split_last-Rejoins (String.◌∷◌ c s) h = elim (Bool-cases (no_dot s)) [
  | inl none_left ↦
      let at_dot : code c ≡ b'.' = ground arith in
      (
        ("", s),
        ground (arith, split_last-no_dot s none_left),
        nil-append ("." ++ s)
            ∙ cons-append "." String.[] s
            ∙ ap (String.◌∷◌ ".") (nil-append s)
            ∙ ap (λ d. String.◌∷◌ d s) (sym (Char-path c "." at_dot)),
      )
  | inr more ↦
      let (parts, e, joined) = split_last-Rejoins s more in
      (
        (String.◌∷◌ c parts.0, parts.1),
        ground (arith, e),
        cons-append c parts.0 ("." ++ parts.1) ∙ ap (String.◌∷◌ c) joined,
      )
]

-- The change that `setProperty` makes up is dispatched under the full name again; but if that has
-- no dot, with one in front.
abbrev pub announced : String → String
announced full_name = if no_dot full_name then "." ++ full_name else full_name

pub full_id-property_change :
    (full_name : String) (now_usec : ℕ)
    → full_id (property_change full_name now_usec) ≡ announced full_name
unfolding property_change full_id
full_id-property_change full_name now_usec = elim (Bool-cases (no_dot full_name)) [
  | inl plain ↦
      rw (property_change, split_last-no_dot full_name plain, plain) (nil-append ("." ++ full_name))
  | inr dotted ↦
      let (parts, e, joined) = split_last-Rejoins full_name dotted in
      rw (property_change, e, dotted) joined
]
