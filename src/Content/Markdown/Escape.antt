-- ===== src/Content/Markdown/Escape.antt =====
-- crates/content/src/markdown.rs: html_escape.
use forgepost.Prelude.{
  ℕ, ◌≡◌, refl, ap, Bool, true, false, not, ◌||◌, Option, none, some, [], ◌∷◌, ◌++◌, ◌==◌,
  if◌then◌else◌, arith, All, zero, suc, ◌∙◌, All-append,
}
use forgepost.Text.{Text, codes, starts_with}

-- What is written for a character.
unfoldable pub escape_char : ℕ → Text
escape_char c =
    if c == 38
    then codes "&amp;"
    else if c == 60
    then codes "&lt;"
    else if c == 62
    then codes "&gt;"
    else if c == 34
    then codes "&quot;"
    else if c == 39
    then codes "&#39;"
    else c ∷ []

unfoldable pub html_escape : Text → Text
unfolding escape_char
html_escape [] = []
html_escape (c ∷ s) = escape_char c ++ html_escape s

-- A character that neither opens nor closes a tag or an attribute value: none of < > " '.
abbrev pub is_inert : ℕ → Bool
is_inert c = not ((c == 60) || (c == 62) || (c == 34) || (c == 39))

abbrev pub IsInert : Text → Type 0
IsInert s = All (λ c. is_inert c ≡ true) s

-- How a browser reads the five references: the character, and how many characters follow the `&`.
reference : Text → Option (ℕ × ℕ)
reference s =
    if starts_with (codes "&amp;") s
    then some (38, 4)
    else if starts_with (codes "&lt;") s
    then some (60, 3)
    else if starts_with (codes "&gt;") s
    then some (62, 3)
    else if starts_with (codes "&quot;") s
    then some (34, 5)
    else if starts_with (codes "&#39;") s
    then some (39, 4)
    else none

-- What a browser shows for a text, of which the first characters are already read.
unescape_from : ℕ → Text → Text
unfolding reference
unescape_from k [] = []
unescape_from (suc k) (c ∷ s) = unescape_from k s
unescape_from zero (c ∷ s) =
    let plain = unescape_from 0 s in
    elim (reference (c ∷ s)) [ none ↦ c ∷ plain | some r ↦ r.0 ∷ unescape_from r.1 s ]

pub unescape : Text → Text
unescape s = unescape_from 0 s

reference-other : (c : ℕ) (s : Text) → (c == 38) ≡ false → reference (c ∷ s) ≡ none
unfolding reference
reference-other c s h = ground arith

unescape-escape_char :
    (c : ℕ) (s : Text) → unescape_from 0 (escape_char c ++ s) ≡ c ∷ unescape_from 0 s
unfolding unescape_from escape_char reference
unescape-escape_char c s = ground arith

-- Escaping loses nothing: a browser shows the text that was escaped.
pub unescape-html_escape : (s : Text) → unescape (html_escape s) ≡ s
unfolding unescape html_escape unescape_from
unescape-html_escape [] = refl
unescape-html_escape (c ∷ s) =
    unescape-escape_char c (html_escape s) ∙ ap (λ t. c ∷ t) (unescape-html_escape s)

escape_char-IsInert : (c : ℕ) → IsInert (escape_char c)
unfolding escape_char
escape_char-IsInert c = ground arith

-- Escaped text neither opens nor closes a tag or an attribute value.
pub html_escape-IsInert : (s : Text) → IsInert (html_escape s)
unfolding html_escape
html_escape-IsInert [] = tt
html_escape-IsInert (c ∷ s) =
    All-append _ (escape_char c) (html_escape s) (escape_char-IsInert c) (html_escape-IsInert s)
