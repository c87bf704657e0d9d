-- ===== src/Prelude/Texts.antt =====
-- The methods of JavaScript's strings that the sources use, on texts.
-- `lower` is `toLowerCase` on ASCII, the only letters of a parsed host name, a header's media type and an
-- address that the schemas let in.
use Prim.Native.Nat.{ℕ, suc, ◌+◌}
use mathlib.Core.Path.{◌≡◌, refl}
use mathlib.Core.Bool.{Bool, true, false, ◌&&◌, ◌||◌}
use mathlib.Core.List.{List, [], ◌∷◌, ◌++◌}
use native.Mathlib.Omega.{arith}
use background_job_runner.Prelude.Tests.{◌==◌, leb, if◌then◌else◌}
use background_job_runner.Prelude.Lists.{any}
use background_job_runner.Prelude.Strings.{Text}

abbrev pub starts_with : Text → Text → Bool
starts_with s [] = true
starts_with [] (c ∷ p) = false
starts_with (a ∷ s) (c ∷ p) = a == c && starts_with s p

abbrev pub reverse_onto : Text → Text → Text
reverse_onto acc [] = acc
reverse_onto acc (c ∷ s) = reverse_onto (c ∷ acc) s

abbrev pub ends_with : Text → Text → Bool
ends_with s p = starts_with (reverse_onto [] s) (reverse_onto [] p)

-- `s.includes(c)` for one character.
abbrev pub includes : ℕ → Text → Bool
includes c s = any (◌==◌ c) s

abbrev pub cons_head : ℕ → List Text → List Text
cons_head c [] = (c ∷ []) ∷ []
cons_head c (p ∷ ps) = (c ∷ p) ∷ ps

-- `s.split(c)` for one character.
unfoldable pub split : ℕ → Text → List Text
split c [] = [] ∷ []
split c (x ∷ s) = let rest = split c s in if c == x then [] ∷ rest else cons_head x rest

-- `s.split(cc)` for a character that is doubled.
unfoldable pub split_double : ℕ → Text → List Text
split_double c [] = [] ∷ []
split_double c (x ∷ []) = (x ∷ []) ∷ []
split_double c (x ∷ y ∷ s) = elim (c == x && c == y) [
  | true ↦ [] ∷ split_double c s
  | false ↦ cons_head x (split_double c (y ∷ s))
]

-- White space of `trim`.
abbrev pub is_blank : ℕ → Bool
is_blank c = (leb 9 c && leb c 13) || c == 32 || c == 160 || c == 65279 || is_wide_blank c
  where
    is_wide_blank : ℕ → Bool
    is_wide_blank c =
        c == 5760
        || (leb 8192 c && leb c 8202)
        || c == 8232
        || c == 8233
        || c == 8239
        || c == 8287
        || c == 12288

abbrev pub trim_start : Text → Text
trim_start [] = []
trim_start (c ∷ s) = let rest = trim_start s in if is_blank c then rest else c ∷ s

abbrev pub cons_unless_blank : ℕ → Text → Text
cons_unless_blank c [] = if is_blank c then [] else c ∷ []
cons_unless_blank c (d ∷ s) = c ∷ d ∷ s

abbrev pub trim_end : Text → Text
trim_end [] = []
trim_end (c ∷ s) = cons_unless_blank c (trim_end s)

abbrev pub trim : Text → Text
trim s = trim_end (trim_start s)

abbrev pub lower_char : ℕ → ℕ
lower_char c = if leb 65 c && leb c 90 then c + 32 else c

abbrev pub lower : Text → Text
lower [] = []
lower (c ∷ s) = lower_char c ∷ lower s

abbrev is_high : ℕ → Bool
is_high c = leb 55296 c && leb c 56319

abbrev is_low : ℕ → Bool
is_low c = leb 56320 c && leb c 57343

-- The number of characters that a schema's length bounds count: a surrogate pair is one.
unfoldable pub characters : Text → ℕ
characters [] = 0
characters (c ∷ []) = 1
characters (c ∷ d ∷ s) = elim (is_high c && is_low d) [
  | true ↦ suc (characters s)
  | false ↦ suc (characters (d ∷ s))
]

-- A text without the separator is its only part.
pub split-whole : (c : ℕ) (s : Text) → includes c s ≡ false → split c s ≡ s ∷ []
unfolding split
split-whole c [] h = refl
split-whole c (x ∷ s) h = ground (arith, split-whole c s (ground arith))

pub split_double-whole :
    (c x : ℕ) (s : Text) → includes c s ≡ false → split_double c (x ∷ s) ≡ (x ∷ s) ∷ []
unfolding split_double
split_double-whole c x [] h = refl
split_double-whole c x (y ∷ s) h = ground (arith, split_double-whole c y s (ground arith))

-- A part before a separator.
pub split-append :
    (c : ℕ) (a b : Text) → includes c a ≡ false → split c (a ++ c ∷ b) ≡ a ∷ split c b
unfolding split
split-append c [] b h = ground arith
split-append c (x ∷ a) b h = ground (arith, split-append c a b (ground arith))
