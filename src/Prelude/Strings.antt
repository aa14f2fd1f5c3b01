-- ===== src/Prelude/Strings.antt =====
-- Python's `str` as the list of its code points, for the code that walks or searches its text.
-- `lower` and `strip` are those of texts whose cased letters and blanks are ASCII.
use Prim.Native.Nat.{ℕ, zero, suc, ◌+◌, ◌/◌, ◌%◌}
use Prim.Native.Char.{code}
use Prim.Native.String.{String}
use mathlib.Core.Bool.{Bool, true, false, ◌&&◌, ◌||◌}
use mathlib.Core.List.{List, [], ◌∷◌, ◌++◌, map}
use mathlib.Core.Option.{Option, none, some}
use colony_agents.Prelude.Tests.{leb, ◌==◌, if◌then◌else◌}
use colony_agents.Prelude.Lists.{any}

abbrev pub Text : Type 0
Text = List ℕ

abbrev pub codes : String → Text
codes String.[] = []
codes (String.◌∷◌ c s) = code c ∷ codes s

-- a == b
abbrev pub text_eq : Text → Text → Bool
text_eq [] [] = true
text_eq [] (d ∷ t) = false
text_eq (c ∷ s) [] = false
text_eq (c ∷ s) (d ∷ t) = c == d && text_eq s t

-- t or d, where t may be None or empty
abbrev pub or_text : Option Text → Text → Text
or_text none d = d
or_text (some []) d = d
or_text (some (c ∷ t)) d = c ∷ t

-- sep.join(parts)
abbrev pub join : Text → List Text → Text
join sep [] = []
join sep (s ∷ []) = s
join sep (s ∷ t ∷ ts) = s ++ (sep ++ join sep (t ∷ ts))

-- s.startswith(k)
abbrev pub starts_with : Text → Text → Bool
starts_with s [] = true
starts_with [] (d ∷ k) = false
starts_with (c ∷ s) (d ∷ k) = c == d && starts_with s k

-- k in s
abbrev pub contains : Text → Text → Bool
contains k [] = starts_with [] k
contains k (c ∷ s) = starts_with (c ∷ s) k || contains k s

-- any(k in s for k in ks)
abbrev pub contains_any : List Text → Text → Bool
contains_any ks s = any (λ k. contains k s) ks

abbrev pub lower_char : ℕ → ℕ
lower_char c = if leb b'A' c && leb c b'Z' then c + 32 else c

-- s.lower()
abbrev pub lower : Text → Text
lower = map lower_char

-- The blanks of ASCII: tab to carriage return, the four separators, the space.
abbrev pub is_space : ℕ → Bool
is_space c = (leb 9 c && leb c 13) || (leb 28 c && leb c 32)

abbrev pub strip_left : Text → Text
strip_left [] = []
strip_left (c ∷ s) = let rest = strip_left s in if is_space c then rest else c ∷ s

abbrev pub all_space : Text → Bool
all_space [] = true
all_space (c ∷ s) = is_space c && all_space s

abbrev pub strip_right : Text → Text
strip_right [] = []
strip_right (c ∷ s) = let rest = strip_right s in if all_space (c ∷ s) then [] else c ∷ rest

-- s.strip()
abbrev pub strip : Text → Text
strip s = strip_right (strip_left s)

abbrev pub is_digit : ℕ → Bool
is_digit c = leb b'0' c && leb c b'9'

-- str(n) of a number: `fuel` digits at most, and a number has no more digits than its value says,
-- but for the one of zero.
abbrev digits : ℕ → ℕ → Text → Text
digits zero n t = t
digits (suc fuel) n t =
    let rest = digits fuel (n / 10) ((b'0' + n % 10) ∷ t) in
    if leb n 9 then (b'0' + n) ∷ t else rest

abbrev pub str : ℕ → Text
str n = digits (n + 1) n []
