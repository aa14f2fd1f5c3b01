-- ===== src/Prelude/Like.antt =====
-- SQL's LIKE, with `%`, `_` and the backslash that makes the next character stand for itself.
use Prim.Native.Nat.{ℕ}
use mathlib.Core.Path.{◌≡◌, refl}
use mathlib.Core.Logic.{inl, inr}
use mathlib.Core.Bool.{Bool, true, false, ◌||◌}
use mathlib.Core.List.{List, [], ◌∷◌, ◌++◌}
use native.Mathlib.Omega.{arith}
use colony_agents.Prelude.Tests.{◌==◌, if◌then◌else◌, Bool-cases}
use colony_agents.Prelude.Lists.{All}
use colony_agents.Prelude.Strings.{Text}

pub data Token : Type 0 where
  any_run any_char : Token
  char : ℕ → Token

abbrev token_of : ℕ → Token
token_of c = if c == b'%' then any_run else if c == b'_' then any_char else char c

-- The flag says that a backslash came before.
unfoldable pub tokens : Bool → Text → List Token
tokens escaped [] = []
tokens true (c ∷ p) = char c ∷ tokens false p
tokens false (c ∷ p) =
    let plain = token_of c ∷ tokens false p in
    let next = tokens true p in if c == 0x5c then next else plain

unfoldable pub matches : List Token → Text → Bool
matches [] [] = true
matches [] (c ∷ s) = false
matches (any_run ∷ ts) [] = matches ts []
matches (any_run ∷ ts) (c ∷ s) = matches ts (c ∷ s) || matches (any_run ∷ ts) s
matches (any_char ∷ ts) [] = false
matches (any_char ∷ ts) (c ∷ s) = matches ts s
matches (char d ∷ ts) [] = false
matches (char d ∷ ts) (c ∷ s) = if d == c then matches ts s else false

-- s LIKE p
unfoldable pub like : Text → Text → Bool
like p s = matches (tokens false p) s

abbrev pub IsPlain : Text → Type 0
IsPlain = All (λ c. (c == 0x5c) ≡ false)

matches-run : (s : Text) → matches (any_run ∷ []) s ≡ true
unfolding matches
matches-run [] = refl
matches-run (c ∷ s) = ground (arith, matches-run s)

matches-run_step :
    (ts : List Token) (c : ℕ) (s : Text)
    → matches (any_run ∷ ts) s ≡ true
    → matches (any_run ∷ ts) (c ∷ s) ≡ true
unfolding matches
matches-run_step ts c s h = ground arith

matches-run_here :
    (ts : List Token) (s : Text) → matches ts s ≡ true → matches (any_run ∷ ts) s ≡ true
unfolding matches
matches-run_here ts [] h = h
matches-run_here ts (c ∷ s) h = ground arith

matches-token_of :
    (c : ℕ) (ts : List Token) (s : Text)
    → matches ts s ≡ true
    → matches (token_of c ∷ ts) (c ∷ s) ≡ true
unfolding matches
matches-token_of c ts s h = elim (Bool-cases (c == b'%')) [
  | inl e ↦ rw e (matches-run_step ts c s (matches-run_here ts s h))
  | inr e ↦
      rw e (elim (Bool-cases (c == b'_')) [ inl u ↦ rw u h | inr u ↦ rw u (ground (arith, h)) ])
]

-- A text without a backslash, followed by `%`, is like itself followed by anything.
pub like-prefix : (p s : Text) → IsPlain p → like (p ++ (b'%' ∷ [])) (p ++ s) ≡ true
unfolding like tokens
like-prefix [] s h = matches-run s
like-prefix (c ∷ p) s (h, hs) = rw h (matches-token_of c _ (p ++ s) (like-prefix p s hs))
