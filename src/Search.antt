-- ===== src/Search.antt =====
-- crates/infrastructure/src/sqlite.rs: the texts that go into the full-text search and come out of it,
-- fts_match_expr and escape_snippet. The search itself is SQLite's.
pub mod Query
pub mod Snippet
mod Tests
use forgepost.Prelude.{
  ℕ, zero, suc, Bool, true, false, not, ◌&&◌, ◌||◌, Option, none, some, List, [], ◌∷◌, ◌++◌, ◌==◌,
  leb, keep, map, length, if◌then◌else◌,
}
use forgepost.Text.{Text, codes, is_empty}
use forgepost.Text.Ops.{is_whitespace, trim, split_once}
use forgepost.Content.Markdown.Escape.{html_escape}
use forgepost.Content.Markdown.Outcome.{Outcome, done, unfinished, and_then}

-- `char::is_control`.
abbrev pub is_control : ℕ → Bool
is_control c = leb c 31 || (leb 127 c && leb c 159)

-- A character put before the first of some texts.
abbrev to_first : ℕ → List Text → List Text
to_first c [] = (c ∷ []) ∷ []
to_first c (s ∷ ss) = (c ∷ s) ∷ ss

-- `split_whitespace`: the parts between white space; those that are empty are dropped.
unfoldable pub parts : Text → List Text
unfolding is_whitespace
parts [] = [] ∷ []
parts (c ∷ s) = let rest = parts s in if is_whitespace c then [] ∷ rest else to_first c rest

unfoldable pub split_whitespace : Text → List Text
unfolding parts
split_whitespace s = keep (λ w. not (is_empty w)) (parts s)

unfoldable pub token_of : Text → Text
unfolding trim
token_of raw = trim (keep (λ c. not (is_control c) && not (c == 34)) raw)

unfoldable pub tokens_of : List Text → List Text
unfolding token_of
tokens_of [] = []
tokens_of (raw ∷ raws) =
    let rest = tokens_of raws in if is_empty (token_of raw) then rest else token_of raw ∷ rest

-- Each token in quotes, with a space between two and a star behind the last.
unfoldable pub write_tokens : List Text → Text
write_tokens [] = []
write_tokens (token ∷ []) = codes "\"" ++ token ++ codes "\"*"
write_tokens (token ∷ next ∷ tokens) =
    codes "\"" ++ token ++ codes "\"" ++ codes " " ++ write_tokens (next ∷ tokens)

unfoldable pub fts_match_expr : Text → Text
unfolding tokens_of write_tokens split_whitespace
fts_match_expr query = write_tokens (tokens_of (split_whitespace query))

-- What follows an opening mark; `scan` goes on behind the closing one.
abbrev pub marked : (Text → Outcome Text) → Text → Option (Text × Text) → Outcome Text
marked scan rest none = done (html_escape rest)
marked scan rest (some (inside, after)) =
    and_then (scan after) (λ out. done (html_escape inside ++ (codes "</mark>" ++ out)))

-- What follows a closing mark, or stands at the start.
abbrev pub unmarked : (Text → Outcome Text) → Text → Option (Text × Text) → Outcome Text
unmarked scan rest none = done (html_escape rest)
unmarked scan rest (some (before, after)) =
    and_then (marked scan after (split_once (codes "</mark>") after))
      (λ out. done (html_escape before ++ (codes "<mark>" ++ out)))

unfoldable pub snippet_from : ℕ → Text → Outcome Text
unfolding split_once html_escape
snippet_from zero rest = unfinished
snippet_from (suc rounds) rest =
    unmarked (λ t. snippet_from rounds t) rest (split_once (codes "<mark>") rest)

-- Each round but the last takes two marks.
unfoldable pub escape_snippet : Text → Outcome Text
unfolding snippet_from
escape_snippet snippet = snippet_from (suc (length snippet)) snippet
