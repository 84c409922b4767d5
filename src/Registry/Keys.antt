-- ===== src/Registry/Keys.antt =====
-- The key functions of `SubscriptionRegistry`. A key names a topic: one letter for the kind of
-- the subscription, then the component or the property.
use Prim.Native.Char.{Char}
use Prim.Native.String.{count}
use mathlib.Core.Path.{ap₂}
use text.Mathlib.TextLemmas.{
  append_cancel_left, append_assoc, nil-append, cons-append, append_inj, head-eq_of_cons-eq,
  tail-eq_of_cons-eq,
}
use api_gateway_gtc.Base.{
  String, ◌++◌, ◌≡◌, refl, sym, ap, ◌∙◌, ◌≢◌, arith, code, Bool, true, false, ◌==◌, eq_iff, nat_eq,
  not, ◌&&◌,
}

unfoldable pub data_block_key : String → String → String
data_block_key component magnitude = "D:" ++ component ++ ":" ++ magnitude

unfoldable pub state_change_key : String → String
state_change_key component = "S:" ++ component

unfoldable pub magnitude_change_key : String → String → String
magnitude_change_key component magnitude = "M:" ++ component ++ ":" ++ magnitude

unfoldable pub event_key : String → String
event_key component = "A:" ++ component

unfoldable pub record_key : String → String
record_key component = "L:" ++ component

unfoldable pub property_key : String → String
property_key property = "C:" ++ property

-- No `:` in the text.
unfoldable pub no_colon : String → Bool
no_colon String.[] = true
no_colon (String.◌∷◌ c s) = not (nat_eq (code c) b':') && no_colon s

-- Texts with different heads of the same length differ.
pub heads_differ : (p q x y : String) → count p ≡ count q → (p == q) ≡ false → p ++ x ≢ q ++ y
heads_differ p q x y same differ e =
    let pq : p ≡ q = (append_inj {s₁ = p} {s₂ = q} {t₁ = x} {t₂ = y} e same).0 in
    let hit : (p == q) ≡ true = (eq_iff p q).1 pq in cc

pub no_colon-head :
    (x : Char) (c r m : String) → no_colon (String.◌∷◌ x c) ≡ true → String.◌∷◌ x c ++ r ≢ ":" ++ m
unfolding no_colon
no_colon-head x c r m h e =
    let e' = sym (cons-append x c r) ∙ e ∙ cons-append ":" String.[] m in
    let at_colon : code x ≡ b':' = ap code (head-eq_of_cons-eq e') in ground arith

-- The first colon ends the component, if the component has none.
pub colon_split :
    (c d m n : String)
    → no_colon c ≡ true
    → no_colon d ≡ true
    → c ++ (":" ++ m) ≡ d ++ (":" ++ n)
    → (c ≡ d) × (m ≡ n)
unfolding no_colon
colon_split String.[] String.[] m n hc hd e =
    (refl, append_cancel_left ":" m n (sym (nil-append (":" ++ m)) ∙ e ∙ nil-append (":" ++ n)))
colon_split String.[] (String.◌∷◌ x d) m n hc hd e =
    absurd (no_colon-head x d (":" ++ n) m hd (sym e ∙ nil-append (":" ++ m)))
colon_split (String.◌∷◌ x c) String.[] m n hc hd e =
    absurd (no_colon-head x c (":" ++ m) n hc (e ∙ nil-append (":" ++ n)))
colon_split (String.◌∷◌ x c) (String.◌∷◌ y d) m n hc hd e =
    let e' = sym (cons-append x c (":" ++ m)) ∙ e ∙ cons-append y d (":" ++ n) in
    let hx : x ≡ y = head-eq_of_cons-eq e' in
    let r = colon_split c d m n (ground arith) (ground arith) (tail-eq_of_cons-eq e') in
    (ap₂ String.◌∷◌ hx r.0, r.1)

-- `p + c + ":" + m` read off from its two parts.
pub topic_key_injective :
    (p c d m n : String)
    → no_colon c ≡ true
    → no_colon d ≡ true
    → p ++ c ++ ":" ++ m ≡ p ++ d ++ ":" ++ n
    → (c ≡ d) × (m ≡ n)
topic_key_injective p c d m n hc hd e = colon_split c d m n hc hd (append_cancel_left p _ _ e)

-- A colon can be moved from the component's end to the magnitude's start.
pub topic_key_collision :
    (p c x m : String) → p ++ (c ++ ":" ++ x) ++ ":" ++ m ≡ p ++ c ++ ":" ++ (x ++ ":" ++ m)
topic_key_collision p c x m = simp append_assoc

-- Data-block keys of components without a colon are equal for the same component and magnitude
-- alone.
pub data_block_key_injective :
    (c d m n : String)
    → no_colon c ≡ true
    → no_colon d ≡ true
    → data_block_key c m ≡ data_block_key d n
    → (c ≡ d) × (m ≡ n)
unfolding data_block_key
data_block_key_injective c d m n hc hd e = topic_key_injective "D:" c d m n hc hd e

-- Two different pairs of a component and a magnitude with the same data-block key: a colon at the
-- component's end can be moved to the magnitude's start.
pub data_block_key_collision :
    (c x m : String) → data_block_key (c ++ ":" ++ x) m ≡ data_block_key c (x ++ ":" ++ m)
unfolding data_block_key
data_block_key_collision c x m = topic_key_collision "D:" c x m

-- The three kinds of keys of the monitor's registry never meet.
pub monitor_keys_differ :
    (c m d n : String)
    → (data_block_key c m ≢ state_change_key d)
      × (data_block_key c m ≢ magnitude_change_key d n)
      × (state_change_key c ≢ magnitude_change_key d n)
unfolding data_block_key state_change_key magnitude_change_key
monitor_keys_differ c m d n = (
  heads_differ "D:" "S:" (c ++ ":" ++ m) d refl refl,
  heads_differ "D:" "M:" (c ++ ":" ++ m) (d ++ ":" ++ n) refl refl,
  heads_differ "S:" "M:" c (d ++ ":" ++ n) refl refl,
)
