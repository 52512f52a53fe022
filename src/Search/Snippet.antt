-- ===== src/Search/Snippet.antt =====
-- What escape_snippet writes.
use forgepost.Prelude.{
  ℕ, zero, suc, ◌≤◌, ◌<◌, ◌≡◌, refl, ap, Option, none, some, ◌++◌, length, length-append, arith,
}
use forgepost.Text.{Text, codes}
use forgepost.Text.Ops.{split_once}
use forgepost.Content.Markdown.Escape.{html_escape, IsInert, html_escape-IsInert}
use forgepost.Content.Markdown.Outcome.{Outcome, done, Holds, and_then-Holds}
use forgepost.Content.Markdown.Inline.Spans.{split_once-append}
use forgepost.Search.{marked, unmarked, snippet_from, escape_snippet}

-- Inert text with marks: opened and closed in turn, where the last may stay open.
mutual
  pub data IsHighlighted : Text → Type 0 where
    plain : (s : Text) → IsInert s → IsHighlighted s
    opened : (s t : Text) → IsInert s → IsOpen t → IsHighlighted (s ++ (codes "<mark>" ++ t))

  pub data IsOpen : Text → Type 0 where
    rest : (s : Text) → IsInert s → IsOpen s
    closed : (s t : Text) → IsInert s → IsHighlighted t → IsOpen (s ++ (codes "</mark>" ++ t))

-- What is cut off at a separator of one character at least is shorter.
after-length :
    (sep s inside after : Text)
    → 1 ≤ length sep
    → split_once sep s ≡ some (inside, after)
    → length after < length s
after-length sep s inside after l h =
    let whole = ap length (split_once-append sep s inside after h) in
    let a = length-append inside (sep ++ after) in
    let b = length-append sep after in omega (arith, whole, a, b, l)

module _ (scan : Text → Outcome Text) (n : ℕ)
    (ih : (t : Text) → length t < n → Holds IsHighlighted (scan t)) where
  marked-IsOpen :
      (s : Text) (o : Option (Text × Text))
      → split_once (codes "</mark>") s ≡ o
      → length s < n
      → Holds IsOpen (marked scan s o)
  marked-IsOpen s none e l = rest (html_escape s) (html_escape-IsInert s)
  marked-IsOpen s (some (inside, after)) e l =
      and_then-Holds IsHighlighted IsOpen (scan after)
        (λ out. done (html_escape inside ++ (codes "</mark>" ++ out)))
        (ih after (omega (arith, after-length (codes "</mark>") s inside after (omega arith) e, l)))
        (λ out h. closed (html_escape inside) out (html_escape-IsInert inside) h)

  unmarked-IsHighlighted :
      (s : Text) (o : Option (Text × Text))
      → split_once (codes "<mark>") s ≡ o
      → length s ≤ n
      → Holds IsHighlighted (unmarked scan s o)
  unmarked-IsHighlighted s none e l = plain (html_escape s) (html_escape-IsInert s)
  unmarked-IsHighlighted s (some (before, after)) e l =
      and_then-Holds IsOpen IsHighlighted (marked scan after (split_once (codes "</mark>") after))
        (λ out. done (html_escape before ++ (codes "<mark>" ++ out)))
        (marked-IsOpen after (split_once (codes "</mark>") after) refl
          (omega (arith, after-length (codes "<mark>") s before after (omega arith) e, l)))
        (λ out h. opened (html_escape before) out (html_escape-IsInert before) h)

snippet_from-IsHighlighted :
    (rounds : ℕ) (s : Text) → length s < rounds → Holds IsHighlighted (snippet_from rounds s)
unfolding snippet_from
snippet_from-IsHighlighted zero s l = let impossible : ⊥ = omega (arith, l) in elim impossible [ ]
snippet_from-IsHighlighted (suc rounds) s l =
    unmarked-IsHighlighted (λ t. snippet_from rounds t) rounds
      (λ t m. snippet_from-IsHighlighted rounds t m) s (split_once (codes "<mark>") s) refl
      (omega (arith, l))

-- Whatever the snippet, its escaping ends, and what it returns is text without markup but for marks
-- that open and close in turn.
pub escape_snippet-IsHighlighted : (snippet : Text) → Holds IsHighlighted (escape_snippet snippet)
unfolding escape_snippet
escape_snippet-IsHighlighted snippet =
    snippet_from-IsHighlighted (suc (length snippet)) snippet (omega arith)
