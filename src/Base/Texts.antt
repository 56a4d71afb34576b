-- ===== src/Base/Texts.antt =====
-- Texts as lists of code points (their bytes where they are ASCII), and tests of `str` on them.
use Prim.Native.Nat.{ℕ}
use Prim.Native.Char.{code}
use Prim.Native.String.{String}
use mathlib.Core.Bool.{Bool, true, false, ◌||◌}
use mathlib.Core.List.{List, [], ◌∷◌}
use mathlib.Core.Option.{Option, none, some}
use greeg.Base.Tests.{◌==◌, if◌then◌else◌}
use greeg.Base.Lists.{Bytes, bytes_eq}

abbrev pub codes : String → Bytes
codes String.[] = []
codes (String.◌∷◌ c s) = code c ∷ codes s

-- `s.strip_prefix(p)`
unfoldable pub strip_prefix : Bytes → Bytes → Option Bytes
strip_prefix [] s = some s
strip_prefix (x ∷ p) [] = none
strip_prefix (x ∷ p) (c ∷ s) = if x == c then strip_prefix p s else none

unfoldable pub is_some {ℓ} : {A : Type ℓ} → Option A → Bool
is_some none = false
is_some (some a) = true

-- `s.starts_with(p)`
unfoldable pub starts_with : Bytes → Bytes → Bool
unfolding strip_prefix is_some
starts_with s p = is_some (strip_prefix p s)

-- `s.contains(c)` for one character.
unfoldable pub contains_char : Bytes → ℕ → Bool
contains_char [] c = false
contains_char (x ∷ s) c = x == c || contains_char s c

-- `words.contains(w)`, and `matches!` over literals.
unfoldable pub contains_text : List Bytes → Bytes → Bool
unfolding bytes_eq
contains_text [] w = false
contains_text (v ∷ vs) w = bytes_eq v w || contains_text vs w
