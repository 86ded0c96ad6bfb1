-- ===== src/Prelude/Strings.antt =====
-- Texts and equality tests. A text is the list of its UTF-16 code units, as a string is in the
-- source's language; `trim` is the language's own method.
use Prim.Native.Nat.{ℕ}
use Prim.Native.Char.{code}
use Prim.Native.String.{String}
use native.Mathlib.Decide.{ℕ_discrete}
use mathlib.Core.Path.{◌≡◌, refl, ap₂, ap}
use mathlib.Core.Bool.{Bool, true, false, ◌&&◌, ◌||◌}
use mathlib.Core.Option.{Option, none, some}
use mathlib.Core.List.{List, [], ◌∷◌, head?, tail}
use native.Mathlib.Omega.{arith}
use superscriber.Prelude.Tests.{leb, ◌==◌, if◌then◌else◌}

abbrev pub Text : Type 0
Text = List ℕ

join_dec : (a b : ℕ) (s t : Text) → Dec (a ≡ b) → Dec (s ≡ t) → Dec (◌≡◌ {A = Text} (a ∷ s) (b ∷ t))
join_dec a b s t (yes p) (yes q) = yes (ap₂ ◌∷◌ p q)
join_dec a b s t (yes p) (no n) = no (λ e. n (ap tail e))
join_dec a b s t (no n) d = no (λ e. ground (arith, ap head? e))

unfoldable pub Text-discrete : Discrete Text
unfolding ℕ_discrete join_dec
Text-discrete [] [] = yes refl
Text-discrete [] (b ∷ t) = no (λ e. cc)
Text-discrete (a ∷ s) [] = no (λ e. cc)
Text-discrete (a ∷ s) (b ∷ t) = join_dec a b s t (ℕ_discrete a b) (Text-discrete s t)

-- The source's `===` on values of one type.
pub record Equal {ℓ} (A : Type ℓ) : Type ℓ where
  pub same : Discrete A

infix 50 ◌===◌
abbrev pub ◌===◌ {ℓ} : {A : Type ℓ} ⦃e : Equal A⦄ → A → A → Bool
◌===◌ ⦃e⦄ a b = elim (e.same a b) [ yes p ↦ true | no n ↦ false ]

instance abbrev pub text_equal : Equal Text
text_equal = record { same = Text-discrete }

-- `a === b` where `a` may be null or undefined and `b` is a value; also an equation of SQL.
abbrev pub is : Option Text → Text → Bool
is none b = false
is (some a) b = a === b

-- The truth value of a text, and of one that may be null.
abbrev pub non_empty : Text → Bool
non_empty [] = false
non_empty (c ∷ s) = true

abbrev pub truthy : Option Text → Bool
truthy none = false
truthy (some s) = non_empty s

-- The units that `trim` removes.
unfoldable pub is_space : ℕ → Bool
is_space c =
    (leb 9 c && leb c 13)
    || (c == 32)
    || (c == 160)
    || (c == 5760)
    || (leb 8192 c && leb c 8202)
    || (c == 8232)
    || (c == 8233)
    || (c == 8239)
    || (c == 8287)
    || (c == 12288)
    || (c == 65279)

unfoldable pub trim_start : Text → Text
trim_start [] = []
trim_start (c ∷ s) = if is_space c then trim_start s else c ∷ s

unfoldable pub trim_end : Text → Text
trim_end [] = []
trim_end (c ∷ s) =
    let rest = trim_end s in if non_empty rest then c ∷ rest else if is_space c then [] else c ∷ []

unfoldable pub trim : Text → Text
unfolding trim_start trim_end is_space
trim s = trim_start (trim_end s)

-- The text of a literal within the Basic Multilingual Plane.
abbrev pub units : String → Text
units String.[] = []
units (String.◌∷◌ c s) = code c ∷ units s

-- Trimming leaves nothing to trim.
trim_end-trim_end : (s : Text) → trim_end (trim_end s) ≡ trim_end s
unfolding trim_end
trim_end-trim_end [] = refl
trim_end-trim_end (c ∷ s) = ground (arith, trim_end-trim_end s)

trim_end_tail : (c : ℕ) (s : Text) → trim_end (c ∷ s) ≡ c ∷ s → trim_end s ≡ s
unfolding trim_end
trim_end_tail c [] h = refl
trim_end_tail c (d ∷ s) h = ground (arith, ap (λ (t : Text). tail t) h)

trim_end-trim_start : (s : Text) → trim_end s ≡ s → trim_end (trim_start s) ≡ trim_start s
unfolding trim_start trim_end
trim_end-trim_start [] h = refl
trim_end-trim_start (c ∷ s) h = ground (arith, trim_end-trim_start s, trim_end_tail c s)

trim_start-trim_start : (s : Text) → trim_start (trim_start s) ≡ trim_start s
unfolding trim_start
trim_start-trim_start [] = refl
trim_start-trim_start (c ∷ s) = ground (arith, trim_start-trim_start s)

pub trim-trim : (s : Text) → trim (trim s) ≡ trim s
unfolding trim
trim-trim s =
    rw (trim_end-trim_start (trim_end s) (trim_end-trim_end s)) (trim_start-trim_start (trim_end s))
