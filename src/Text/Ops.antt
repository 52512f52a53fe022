-- ===== src/Text/Ops.antt =====
-- Texts trimmed, split and searched, as Rust's `str` does it.
use forgepost.Prelude.{
  ℕ, zero, suc, ◌+◌, leb, ◌==◌, Bool, ◌&&◌, ◌||◌, Option, none, some, List, [], ◌∷◌, map, length,
  any, if◌then◌else◌,
}
use forgepost.Text.{Text, text_eq, is_empty, starts_with, strip_prefix}

-- The characters with the Unicode property White_Space, which `str::trim` removes.
unfoldable pub is_whitespace : ℕ → Bool
is_whitespace c =
    (leb 9 c && leb c 13)
    || any (λ d. c == d) (32 ∷ 133 ∷ 160 ∷ 5760 ∷ 8232 ∷ 8233 ∷ 8239 ∷ 8287 ∷ 12288 ∷ [])
    || (leb 8192 c && leb c 8202)

unfoldable pub trim_start : Text → Text
unfolding is_whitespace
trim_start [] = []
trim_start (c ∷ s) = let rest = trim_start s in if is_whitespace c then rest else c ∷ s

unfoldable pub trim_end : Text → Text
unfolding is_whitespace
trim_end [] = []
trim_end (c ∷ s) =
    let rest = trim_end s in if is_empty rest && is_whitespace c then [] else c ∷ rest

unfoldable pub trim : Text → Text
unfolding trim_start trim_end
trim s = trim_end (trim_start s)

abbrev pub ascii_lower : ℕ → ℕ
ascii_lower c = if leb 65 c && leb c 90 then c + 32 else c

unfoldable pub to_ascii_lowercase : Text → Text
to_ascii_lowercase s = map (λ c. ascii_lower c) s

-- `s.split(sep)`: what stands before the first separator, and what behind it, if there is one.
unfoldable pub before : Text → Text → Text
before sep [] = []
before sep (c ∷ s) = let rest = before sep s in if starts_with sep (c ∷ s) then [] else c ∷ rest

unfoldable pub behind_first : Text → Text → Option Text
behind_first sep [] = none
behind_first sep (c ∷ s) =
    let rest = behind_first sep s in
    elim (strip_prefix sep (c ∷ s)) [ none ↦ rest | some after ↦ some after ]

-- What stands before the first of some characters.
unfoldable pub before_any : List ℕ → Text → Text
before_any stops [] = []
before_any stops (c ∷ s) =
    let rest = before_any stops s in if any (λ d. c == d) stops then [] else c ∷ rest

-- `s.trim_start_matches(p)`: rounds as many as the text has characters.
unfoldable pub trim_matches : ℕ → Text → Text → Text
trim_matches zero p s = s
trim_matches (suc rounds) p s = elim (strip_prefix p s) [
  | none ↦ s
  | some rest ↦ trim_matches rounds p rest
]

unfoldable pub trim_start_matches : Text → Text → Text
unfolding trim_matches
trim_start_matches p s = trim_matches (length s) p s

-- `trim_start_matches` and `trim_end_matches` of a character.
unfoldable pub skip_char : ℕ → Text → Text
skip_char p [] = []
skip_char p (c ∷ s) = let rest = skip_char p s in if c == p then rest else c ∷ s

unfoldable pub skip_char_end : ℕ → Text → Text
skip_char_end p [] = []
skip_char_end p (c ∷ s) =
    let rest = skip_char_end p s in if is_empty rest && (c == p) then [] else c ∷ rest

-- `s.split_once(sep)`: what stands before and behind the first separator.
unfoldable pub split_once : Text → Text → Option (Text × Text)
split_once sep [] = elim (strip_prefix sep []) [ none ↦ none | some after ↦ some ([], after) ]
split_once sep (c ∷ s) =
    let rest = split_once sep s in
    elim (strip_prefix sep (c ∷ s)) [
      | some after ↦ some ([], after)
      | none ↦ elim rest [ none ↦ none | some p ↦ some (c ∷ p.0, p.1) ]
    ]

-- What stands before and behind the last occurrence of a character.
unfoldable pub split_last : ℕ → Text → Option (Text × Text)
split_last sep [] = none
split_last sep (c ∷ s) =
    let rest = split_last sep s in
    elim rest [ some p ↦ some (c ∷ p.0, p.1) | none ↦ if c == sep then some ([], s) else none ]

-- A character put before the first of some texts.
abbrev to_first : ℕ → List Text → List Text
to_first c [] = (c ∷ []) ∷ []
to_first c (s ∷ ss) = (c ∷ s) ∷ ss

-- `s.split(sep)` at each occurrence of a character.
unfoldable pub split_char : ℕ → Text → List Text
split_char sep [] = [] ∷ []
split_char sep (c ∷ s) =
    let rest = split_char sep s in if c == sep then [] ∷ rest else to_first c rest

unfoldable pub ends_with : Text → Text → Bool
ends_with suffix [] = text_eq suffix []
ends_with suffix (c ∷ s) = let rest = ends_with suffix s in text_eq suffix (c ∷ s) || rest

-- `s.lines()`: a line ends at a line feed, or at a carriage return and a line feed.
unfoldable pub lines : Text → List Text
lines [] = []
lines (c ∷ s) =
    let rest = lines s in
    if c == 10
    then [] ∷ rest
    else if (c == 13) && starts_with (10 ∷ []) s
    then rest
    else to_first c rest

abbrev pub is_ascii_digit : ℕ → Bool
is_ascii_digit c = leb 48 c && leb c 57

abbrev pub is_ascii_alphanumeric : ℕ → Bool
is_ascii_alphanumeric c = is_ascii_digit c || (leb 65 c && leb c 90) || (leb 97 c && leb c 122)
