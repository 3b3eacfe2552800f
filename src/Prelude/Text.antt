-- ===== src/Prelude/Text.antt =====
-- Texts, as strings and as lists of code points, with the case mappings of `str.lower` and `str.upper`
-- on ASCII.
use Prim.Native.Nat.{ℕ, zero, suc, ◌+◌, ◌-◌}
use Prim.Native.Char.{Char, code}
use Prim.Native.String.{String, ◌++◌ as concat}
use mathlib.Core.Bool.{Bool, true, false, ◌&&◌, ◌||◌}
use mathlib.Core.Option.{Option, none, some}
use text.Mathlib.Text.{◌==◌ as str_eq}
use mathlib.Core.List.{List, [], ◌∷◌, ◌++◌, map, reverse}
use mathlib.Core.Path.{◌≡◌}
use mathlib.Core.Logic.{◌↔◌}
use native.Mathlib.Omega.{arith}
use aimos.Prelude.Tests.{leb, ◌==◌, if◌then◌else◌}

abbrev pub codes : String → List ℕ
codes String.[] = []
codes (String.◌∷◌ c s) = code c ∷ codes s

-- The Kelvin sign is the one letter beyond ASCII that `lower` takes to an ASCII letter alone.
unfoldable pub to_lower : ℕ → ℕ
to_lower c = if leb b'A' c && leb c b'Z' then c + 32 else if c == 0x212a then b'k' else c

unfoldable pub to_upper : ℕ → ℕ
to_upper c = if leb b'a' c && leb c b'z' then c - 32 else c

abbrev pub same_codes : List ℕ → List ℕ → Bool
same_codes [] [] = true
same_codes (a ∷ s) (c ∷ t) = let rest = same_codes s t in if a == c then rest else false
same_codes _ _ = false

-- `s.lower() == t`
unfoldable pub lower_is : String → String → Bool
unfolding to_lower
lower_is s t = same_codes (map to_lower (codes s)) (codes t)

-- `s.upper() == t.upper()`
unfoldable pub same_upper : List ℕ → List ℕ → Bool
unfolding to_upper
same_upper s t = same_codes (map to_upper s) (map to_upper t)

-- `s.split("/")[-1]`: what stands behind the last slash, or all if there is none.
unfoldable pub last_part : List ℕ → List ℕ → List ℕ
last_part part [] = part
last_part part (c ∷ s) = last_part (if c == b'/' then [] else part ++ c ∷ []) s

-- `"/" in s`
unfoldable pub has_slash : List ℕ → Bool
has_slash [] = false
has_slash (c ∷ s) = if c == b'/' then true else has_slash s

-- The code points that `str.strip` and `str.split` take for white space.
unfoldable pub is_space : ℕ → Bool
is_space c =
    (leb 9 c && leb c 13)
    || (leb 28 c && leb c 32)
    || (c == 0x85)
    || (c == 0xa0)
    || (c == 0x1680)
    || (leb 0x2000 c && leb c 0x200a)
    || (c == 0x2028)
    || (c == 0x2029)
    || (c == 0x202f)
    || (c == 0x205f)
    || (c == 0x3000)

unfoldable pub lstrip : List ℕ → List ℕ
unfolding is_space
lstrip [] = []
lstrip (c ∷ s) = if is_space c then lstrip s else c ∷ s

-- `s.strip()`
unfoldable pub strip : List ℕ → List ℕ
unfolding lstrip
strip s = reverse (lstrip (reverse (lstrip s)))

pub same_codes_iff : (s t : List ℕ) → (same_codes s t ≡ true) ↔ (s ≡ t)
same_codes_iff [] [] = ground arith
same_codes_iff [] (c ∷ t) = ground arith
same_codes_iff (a ∷ s) [] = ground arith
same_codes_iff (a ∷ s) (c ∷ t) = ground (arith, same_codes_iff s t)

-- Strings.

-- The letter at a place of a text, or `d` behind its end.
abbrev letter : Char → ℕ → String → Char
letter d _ String.[] = d
letter d zero (String.◌∷◌ c _) = c
letter d (suc i) (String.◌∷◌ _ s) = letter d i s

-- `s.lower()`
unfoldable pub lower : String → String
lower String.[] = String.[]
lower (String.◌∷◌ c s) =
    let rest = lower s in
    let n = code c in
    if leb b'A' n && leb n b'Z'
    then String.◌∷◌ (letter c (n - b'A') "abcdefghijklmnopqrstuvwxyz") rest
    else if n == 0x212a
    then String.◌∷◌ (letter c 0 "k") rest
    else String.◌∷◌ c rest

-- `s.upper()`
unfoldable pub upper : String → String
upper String.[] = String.[]
upper (String.◌∷◌ c s) =
    let rest = upper s in
    let n = code c in
    if leb b'a' n && leb n b'z'
    then String.◌∷◌ (letter c (n - b'a') "ABCDEFGHIJKLMNOPQRSTUVWXYZ") rest
    else String.◌∷◌ c rest

-- `s.rstrip()`
unfoldable pub rstrip : String → String
unfolding is_space
rstrip String.[] = String.[]
rstrip (String.◌∷◌ c s) = elim (rstrip s) [
  | String.[] ↦ if is_space (code c) then String.[] else String.◌∷◌ c String.[]
  | String.◌∷◌ d t ↦ String.◌∷◌ c (String.◌∷◌ d t)
]

-- `s.strip()`
unfoldable pub strip_text : String → String
unfolding rstrip is_space
strip_text String.[] = String.[]
strip_text (String.◌∷◌ c s) =
    let rest = strip_text s in if is_space (code c) then rest else rstrip (String.◌∷◌ c s)

-- `s.split()`: the words of a text; the first argument holds the word that is being read.
unfoldable pub words_from : String → String → List String
unfolding is_space
words_from String.[] String.[] = []
words_from (String.◌∷◌ a w) String.[] = String.◌∷◌ a w ∷ []
words_from word (String.◌∷◌ c s) =
    let ended = words_from String.[] s in
    let longer = words_from (concat word (String.◌∷◌ c String.[])) s in
    if is_space (code c)
    then elim word [ String.[] ↦ ended | String.◌∷◌ a w ↦ String.◌∷◌ a w ∷ ended ]
    else longer

abbrev pub words : String → List String
words s = words_from String.[] s

-- `s.split(c)[0]`: what stands before the first such letter, or all if there is none.
unfoldable pub before : ℕ → String → String
before sep String.[] = String.[]
before sep (String.◌∷◌ c s) =
    let rest = before sep s in if code c == sep then String.[] else String.◌∷◌ c rest

-- `s.replace(c, "")` for one letter
unfoldable pub without : ℕ → String → String
without sep String.[] = String.[]
without sep (String.◌∷◌ c s) =
    let rest = without sep s in if code c == sep then rest else String.◌∷◌ c rest

-- `c in s`
unfoldable pub has_letter : ℕ → String → Bool
has_letter sep String.[] = false
has_letter sep (String.◌∷◌ c s) =
    let rest = has_letter sep s in if code c == sep then true else rest

-- What stands before a suffix: `s[:-len(t)]` where `s.endswith(t)`.
unfoldable pub without_suffix : String → String → Option String
without_suffix suffix String.[] = if str_eq suffix String.[] then some String.[] else none
without_suffix suffix (String.◌∷◌ c s) = elim (without_suffix suffix s) [
  | none ↦ if str_eq suffix (String.◌∷◌ c s) then some String.[] else none
  | some t ↦ some (String.◌∷◌ c t)
]
