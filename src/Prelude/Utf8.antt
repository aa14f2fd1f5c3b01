-- ===== src/Prelude/Utf8.antt =====
-- The size of a text's UTF-8 encoding, `len(s.encode("utf-8"))`.
use Prim.Native.Nat.{ℕ, zero, suc, ◌+◌, ◌*◌, ◌≤◌}
use mathlib.Core.List.{[], ◌∷◌, ◌++◌}
use mathlib.Core.Path.{◌≡◌}
use native.Mathlib.Omega.{arith}
use colony_agents.Prelude.Tests.{ltb, if◌then◌else◌}
use colony_agents.Prelude.Lists.{length, take, All}
use colony_agents.Prelude.Strings.{Text}

-- The bytes of one code point.
abbrev pub char_size : ℕ → ℕ
char_size c = if ltb c 0x80 then 1 else if ltb c 0x800 then 2 else if ltb c 0x10000 then 3 else 4

unfoldable pub utf8_size : Text → ℕ
utf8_size [] = 0
utf8_size (c ∷ s) = char_size c + utf8_size s

-- Code points that take three bytes or more, as the Chinese ones do.
abbrev pub IsWide : Text → Type 0
IsWide = All (λ c. 0x800 ≤ c)

pub utf8_size-append : (s t : Text) → utf8_size (s ++ t) ≡ utf8_size s + utf8_size t
unfolding utf8_size
utf8_size-append [] t = omega arith
utf8_size-append (c ∷ s) t = ground (arith, utf8_size-append s t)

pub IsWide-take : (n : ℕ) (s : Text) → IsWide s → IsWide (take n s)
IsWide-take zero s h = tt
IsWide-take (suc n) [] h = tt
IsWide-take (suc n) (c ∷ s) h = (h.0, IsWide-take n s h.1)

pub utf8_size-wide : (s : Text) → IsWide s → 3 * length s ≤ utf8_size s
unfolding utf8_size
utf8_size-wide [] h = omega arith
utf8_size-wide (c ∷ s) h = ground (arith, utf8_size-wide s h.1)

-- A code point takes at least one byte.
pub length-le-utf8_size : (s : Text) → length s ≤ utf8_size s
unfolding utf8_size
length-le-utf8_size [] = omega arith
length-le-utf8_size (c ∷ s) = ground (arith, length-le-utf8_size s)
