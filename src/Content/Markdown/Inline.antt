-- ===== src/Content/Markdown/Inline.antt =====
-- crates/content/src/markdown.rs: the inline markers, of which inline_spans finds one after the other.
mod Tests
pub mod Spans
pub mod Safe
use forgepost.Prelude.{
  ℕ, zero, suc, Bool, true, false, Option, none, some, List, [], ◌∷◌, ◌++◌, length, if◌then◌else◌,
}
use forgepost.Text.{Text, codes, strip_prefix, is_empty}
use forgepost.Text.Ops.{split_once, trim}
use forgepost.Content.Markdown.Escape.{html_escape}
use forgepost.Content.Markdown.Url.{is_safe_url}

unfoldable pub between : Text → Text → Option (Text × Text)
unfolding split_once
between s marker = elim (strip_prefix marker s) [ none ↦ none | some rest ↦ split_once marker rest ]

-- The label, the address and what follows.
unfoldable pub link : Text → Option (Text × Text × Text)
unfolding split_once trim
link s = elim (strip_prefix (codes "[") s) [
  | none ↦ none
  | some rest ↦ elim (split_once (codes "]") rest) [
    | none ↦ none
    | some labelled ↦ elim (strip_prefix (codes "(") labelled.1) [
      | none ↦ none
      | some target ↦ elim (split_once (codes ")") target) [
        | none ↦ none
        | some closed ↦
            let url = trim closed.0 in
            if is_empty url then none else some (labelled.0, url, closed.1)
      ]
    ]
  ]
]

-- What the scan finds at the start of a text that is not empty, with the text after it.
pub data Span : Type 0 where
  code_span strong em : Text → Text → Span
  anchor : Text → Text → Text → Span
  single : ℕ → Text → Span

-- A code span goes before bold text, that before a link, and that before italics.
abbrev pub first_of :
    Option (Text × Text)
    → Option (Text × Text)
    → Option (Text × Text × Text)
    → Option (Text × Text)
    → ℕ
    → Text
    → Span
first_of (some (inside, after)) bold linked italic c s = code_span inside after
first_of none (some (inside, after)) linked italic c s = strong inside after
first_of none none (some (label, url, after)) italic c s = anchor label url after
first_of none none none (some (inside, after)) c s = em inside after
first_of none none none none c s = single c s

unfoldable pub next_span : ℕ → Text → Span
unfolding between link
next_span c s =
    first_of (between (c ∷ s) (codes "`")) (between (c ∷ s) (codes "**")) (link (c ∷ s))
      (between (c ∷ s) (codes "*")) c s

-- An opening text, what is inside, a closing text, and the rest; the parts may be unfinished.
abbrev pub around : Text → Option Text → Text → Option Text → Option Text
around start (some inside) close (some after) = some (start ++ inside ++ close ++ after)
around start none close after = none
around start (some inside) close none = none

-- What is written for a span and what follows it; `scan` goes on with the parts. A link that could
-- run keeps its label only.
abbrev pub write_span : (Text → Option Text) → Span → Option Text
write_span scan (code_span inside after) =
    around (codes "<code>") (some inside) (codes "</code>") (scan after)
write_span scan (strong inside after) =
    around (codes "<strong>") (scan inside) (codes "</strong>") (scan after)
write_span scan (em inside after) = around (codes "<em>") (scan inside) (codes "</em>") (scan after)
write_span scan (anchor label url after) =
    if is_safe_url url
    then around (codes "<a href=\"" ++ url ++ codes "\">") (scan label) (codes "</a>") (scan after)
    else around [] (scan label) [] (scan after)
write_span scan (single c after) = around (c ∷ []) (some []) [] (scan after)

-- `none` is a scan without enough rounds.
unfoldable pub spans : ℕ → Text → Option Text
unfolding next_span is_safe_url
spans rounds [] = some []
spans zero (c ∷ s) = none
spans (suc rounds) (c ∷ s) = write_span (λ t. spans rounds t) (next_span c s)

-- As many rounds as there are characters.
unfoldable pub inline_spans : Text → Text
unfolding spans
inline_spans s = elim (spans (length s) s) [ none ↦ [] | some out ↦ out ]

unfoldable pub render_inline : Text → Text
unfolding inline_spans html_escape
render_inline text = inline_spans (html_escape text)
