-- ===== src/Prelude/Words.antt =====
-- Searching in texts. `to_lower` is `toLowerCase` as far as ASCII letters of the result go: the letters
-- A to Z, and the Kelvin sign, which becomes k.
use Prim.Native.Nat.{ℕ, ◌+◌}
use mathlib.Core.Bool.{Bool, true, false, ◌&&◌, ◌||◌}
use mathlib.Core.List.{[], ◌∷◌, map}
use superscriber.Prelude.Tests.{leb, ◌==◌, if◌then◌else◌}
use superscriber.Prelude.Strings.{Text}

unfoldable pub lower_unit : ℕ → ℕ
lower_unit c = if leb 65 c && leb c 90 then c + 32 else if c == 8490 then 107 else c

unfoldable pub to_lower : Text → Text
unfolding lower_unit
to_lower s = map lower_unit s

-- `text.startsWith(prefix)`.
unfoldable pub starts_with : Text → Text → Bool
starts_with text [] = true
starts_with [] (c ∷ prefix) = false
starts_with (d ∷ text) (c ∷ prefix) = (d == c) && starts_with text prefix

-- `text.includes(part)`.
unfoldable pub includes : Text → Text → Bool
unfolding starts_with
includes [] part = starts_with [] part
includes (c ∷ text) part = starts_with (c ∷ text) part || includes text part
