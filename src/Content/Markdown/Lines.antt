-- ===== src/Content/Markdown/Lines.antt =====
-- crates/content/src/markdown.rs: what a line is by its first characters.
use forgepost.Prelude.{
  ℕ, zero, suc, Bool, true, false, not, ◌&&◌, ◌||◌, Option, none, some, [], ◌∷◌, ◌==◌, leb, max,
  min, length, all, if◌then◌else◌,
}
use forgepost.Text.{Text, codes, is_empty, strip_prefix}
use forgepost.Text.Ops.{trim, is_ascii_digit}

-- How many times a text starts with a character, and what is behind.
unfoldable pub count_start : ℕ → Text → ℕ
count_start p [] = 0
count_start p (c ∷ s) = let n = count_start p s in if c == p then suc n else 0

unfoldable pub skip : ℕ → Text → Text
skip zero s = s
skip (suc n) [] = []
skip (suc n) (c ∷ s) = skip n s

-- The level and the text.
unfoldable pub parse_heading : Text → Option (ℕ × Text)
unfolding count_start skip trim
parse_heading line =
    let level = count_start 35 line in
    if level == 0 then none else some (min 6 (max 1 level), trim (skip level line))

unfoldable pub is_horizontal_rule : Text → Bool
is_horizontal_rule line = leb 3 (length line) && all (λ c. (c == 45) || (c == 95) || (c == 42)) line

-- What is behind a bullet, or else behind a number and a dot.
unfoldable pub skip_digits : Text → Text
skip_digits [] = []
skip_digits (c ∷ s) = let rest = skip_digits s in if is_ascii_digit c then rest else c ∷ s

unfoldable pub starts_with_digit : Text → Bool
starts_with_digit [] = false
starts_with_digit (c ∷ s) = is_ascii_digit c

unfoldable pub after_marker : Text → Option (Bool × Text)
unfolding skip_digits starts_with_digit
after_marker line = elim (strip_prefix (codes "-") line) [
  | some rest ↦ some (false, rest)
  | none ↦ elim (strip_prefix (codes "*") line) [
    | some rest ↦ some (false, rest)
    | none ↦ elim (strip_prefix (codes "+") line) [
      | some rest ↦ some (false, rest)
      | none ↦
          if not (starts_with_digit line)
          then none
          else elim (strip_prefix (codes ".") (skip_digits line)) [
            | none ↦ none
            | some rest ↦ some (true, rest)
          ]
    ]
  ]
]

-- Whether the list is ordered, and the item.
unfoldable pub parse_list_marker : Text → Option (Bool × Text)
unfolding after_marker trim
parse_list_marker line = elim (after_marker (trim line)) [
  | none ↦ none
  | some (ordered, rest) ↦
      let item = trim rest in if is_empty item then none else some (ordered, item)
]
